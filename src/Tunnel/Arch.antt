-- ===== src/Tunnel/Arch.antt =====
-- measurement_proxy/tunnel.c: the name of the proxy binary for the remote architecture, read from
-- the output of the remote shell into `proxy_filename_arch`, an array of 16 bytes.
use matador.Base.{
  ℕ, zero, suc, ◌+◌, Bool, Option, none, some, List, [], ◌∷◌, ◌++◌, length, take, drop, leb, ◌==◌,
  if◌then◌else◌, ◌>>=◌,
}
use matador.Memory.{Bytes, recv_into}
use matador.CText.{text, strstr, strcspn}

abbrev pub proxy_filename : Bytes
proxy_filename = text "proxy"

abbrev pub proxy_filename_with_location : Bytes
proxy_filename_with_location = text "/home/measurement-proxy/proxy"

abbrev pub sizeof_proxy_filename_arch : ℕ
sizeof_proxy_filename_arch = 16

abbrev pub buflen : ℕ
buflen = 65535

-- The command that stops an old proxy and asks for the word size.
unfoldable pub killall_command : Bool → Bytes
killall_command use_sudo_remote =
    if use_sudo_remote
    then text "sudo killall " ++ (proxy_filename ++ text "; echo \"ARCH\"=$(getconf LONG_BIT)")
    else text "su -c \"killall " ++ (proxy_filename ++ text "\"; echo \"ARCH\"=$(getconf LONG_BIT)")

-- The text in an array: the bytes up to the first NUL. An array with no NUL is read past its end.
unfoldable pub c_string : Bytes → Option Bytes
c_string [] = none
c_string (zero ∷ buf) = some []
c_string (suc c ∷ buf) = c_string buf >>= λ s. some (suc c ∷ s)

-- `strcat` and `strncat` into an array of `cap` bytes, the NUL included.
unfoldable pub strcat : ℕ → Bytes → Bytes → Option Bytes
strcat cap dst src = if leb (length dst + length src + 1) cap then some (dst ++ src) else none

unfoldable pub strncat : ℕ → Bytes → Bytes → ℕ → Option Bytes
strncat cap dst src n = strcat cap dst (take n src)

-- The three calls for an answer; `arch` is the text behind "ARCH=".
unfoldable pub set_arch : Bytes → Bytes → Option Bytes
set_arch old arch = do
  name ← strcat sizeof_proxy_filename_arch old proxy_filename_with_location
  name ← strcat sizeof_proxy_filename_arch name (text "-")
  strncat sizeof_proxy_filename_arch name arch (strcspn arch (text "\r\n"))

-- What one read of the channel does: an answer ends the loop.
abbrev pub on_answer : Bytes → Option Bytes → Option Bytes → Option Bytes
on_answer old again none = again
on_answer old again (some answer) = set_arch old (drop 5 answer)

-- The loop over what the channel delivers; a read of no bytes, or the end of the list, ends it.
unfoldable pub arch_loop : Bytes → Bytes → List Bytes → Option Bytes
arch_loop old buffer [] = some old
arch_loop old buffer (chunk ∷ chunks) =
    let buffer' = recv_into buffer buflen chunk in
    let again = arch_loop old buffer' chunks in
    if length (take buflen chunk) == 0
    then some old
    else (do s ← c_string buffer'; on_answer old again (strstr s (text "ARCH=")))

-- The file to upload: the one for the architecture if it is there, else the plain one.
unfoldable pub upload_filename : (Bytes → Bool) → Bytes → Option Bytes
upload_filename exists arch =
    let name = if exists arch then arch else proxy_filename_with_location in
    if exists name then some name else none
