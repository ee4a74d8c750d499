-- ===== src/Tunnel/Announce.antt =====
-- measurement_proxy/tunnel.c: the command that starts the proxy, and the reading of its output:
-- the address behind "TUNIP=" and the address and port behind "CONNECT=".
use matador.Base.{
  ℕ, Bool, Option, none, some, List, [], ◌∷◌, ◌++◌, length, take, drop, ◌==◌, if◌then◌else◌, ◌>>=◌,
}
use matador.Base.Int.{ℤ, pos}
use matador.Memory.{Bytes, recv_into}
use matador.Socket.{SockaddrIn}
use matador.CText.{text, dec, dec_int, inet_ntoa, strstr, strcspn}
use matador.Tunnel.Options.{host_port}
use matador.Tunnel.Arch.{proxy_filename, buflen, c_string, strncat}

-- `mapped` is printed whatever `stun_request` returned.
unfoldable pub proxy_command : Bool → ℤ → SockaddrIn → Bytes
proxy_command use_sudo_remote rport mapped =
    let args =
      proxy_filename
      ++ (text " eth0 "
          ++ (dec_int rport
              ++ (b' ' ∷ (inet_ntoa mapped.s_addr ++ (b' ' ∷ dec mapped.sin_port))))) in
    if use_sudo_remote
    then text "sudo -S ./" ++ (args ++ text " &")
    else text "su -c \"./" ++ (args ++ text " &\"")

abbrev pub sizeof_string : ℕ
sizeof_string = 128

-- `remote_host` and `tunip_string`, arrays of 128 bytes that start empty.
pub record Heard : Type 0 where
  pub remote_host : Bytes
  pub tunip_string : Bytes

-- "TUNIP=": the last one counts, up to a space.
abbrev pub hear_tunip : Heard → Option Bytes → Option Heard
hear_tunip h none = some h
hear_tunip h (some found) =
    let tunip = drop 6 found in
    strncat sizeof_string [] tunip (strcspn tunip (text " ")) >>= λ s.
    some (record h { tunip_string = s })

-- "CONNECT=": the loop ends.
abbrev pub hear_connect : Heard → Option Heard → Option Bytes → Option Heard
hear_connect h again none = again
hear_connect h again (some found) =
    let connect = drop 8 found in
    strncat sizeof_string h.remote_host connect (strcspn connect (text "\r\n")) >>= λ s.
    some (record h { remote_host = s })

-- The loop over what the channel delivers.
unfoldable pub hear_loop : Heard → Bytes → List Bytes → Option Heard
hear_loop h buffer [] = some h
hear_loop h buffer (chunk ∷ chunks) = if length (take buflen chunk) == 0 then some h else (do
  let buffer' = recv_into buffer buflen chunk
  s ← c_string buffer'
  h' ← hear_tunip h (strstr s (text "TUNIP="))
  hear_connect h' (hear_loop h' buffer' chunks) (strstr s (text "CONNECT=")))

-- `if(*remote_host)`: the host and the port, or the exit "couldn't parse". Without a colon the port
-- is 0.
pub data Remote : Type 0 where
  not_parsed : Remote
  at : Bytes → ℤ → Remote

unfoldable pub remote_of : Bytes → Remote
remote_of [] = not_parsed
remote_of (c ∷ s) = let r = host_port (c ∷ s) (pos 0) in at r.0 r.1

pub record Proxy : Type 0 where
  pub remote : Remote
  pub tunip : Bytes

unfoldable pub hear_proxy : Bytes → List Bytes → Option Proxy
unfolding remote_of
hear_proxy buffer chunks = do
  h ← hear_loop (record { remote_host = []; tunip_string = [] }) buffer chunks
  some (record { remote = remote_of h.remote_host; tunip = h.tunip_string })
