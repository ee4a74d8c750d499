-- ===== src/Tunnel/Invited.antt =====
-- measurement_proxy: the command that tunnel.c sends to the remote host, and the proxy that it starts.
use matador.Base.{◌≡◌, ◌⊎◌, List, [], ◌∷◌, ◌++◌}
use matador.Base.Int.{ℤ}
use matador.Memory.{Bytes}
use matador.Socket.{SockaddrIn}
use matador.CText.{text, dec, dec_int, inet_ntoa}
use matador.Proxy.Setup.{Start, usage, exit_failure, return_minus_one, entered, open_packet}
use matador.Tunnel.Arch.{proxy_filename}

-- The words of the command that the shell makes the proxy's arguments of.
abbrev pub proxy_args : ℤ → SockaddrIn → List Bytes
proxy_args rport mapped =
    (text "./" ++ proxy_filename)
    ∷ text "eth0"
    ∷ dec_int rport
    ∷ inet_ntoa mapped.s_addr
    ∷ dec mapped.sin_port
    ∷ []

-- Words with a space behind each.
abbrev pub spaced : List Bytes → Bytes
spaced [] = []
spaced (w ∷ ws) = w ++ (b' ' ∷ spaced ws)

-- What has been sent to open the way, for each way in which `main` of the proxy goes on.
abbrev pub OpensTo : SockaddrIn → Start → Type 0
OpensTo a usage = ⊥
OpensTo a (exit_failure sent) = (sent.opens ≡ []) ⊎ (sent.opens ≡ (a, open_packet) ∷ [])
OpensTo a (return_minus_one sent) = sent.opens ≡ []
OpensTo a (entered cfg s sent) = sent.opens ≡ (a, open_packet) ∷ []
