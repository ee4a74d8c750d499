-- ===== src/Tunnel/Farewell.antt =====
-- measurement_proxy: the first datagram of tunnel.c, which proxy.c waits for, and its last, "EXIT".
use matador.Base.{
  ℕ, ◌≡◌, ◌≤◌, some, length, drop, get_elem?, ◌==◌, take-all, get_elem?-append, Ensures,
}
use matador.Memory.{Bytes, recv_into}
use matador.Socket.{SockaddrIn}
use matador.Proxy.{Config, State, buflen}
use matador.Proxy.Setup.{Sent, Start, entered, hear_first}
use matador.Proxy.Udp.{Sockets, handle_udp}
use matador.Proxy.Shutdown.{exit, exit_exact}

-- If the loop is entered, its state has `P`.
abbrev pub InLoop : (State → Type 0) → Start → Type 0
InLoop P (entered cfg s sent) = P s
InLoop P _ = Unit {0}

-- When "EXIT" comes directly behind a first datagram of five bytes or more that fits the buffer, and
-- the step does not fault, the loop of the proxy ends exactly if the fifth byte of that datagram is 0.
-- That of "OPEN!", which the tunnel sends first, is not.
pub hear_first-exit :
    (cfg : Config) (arp buffer : Bytes) (sent : Sent) (from : SockaddrIn) (d : Bytes) (b : ℕ)
    (k : Sockets)
    → length d ≤ buflen
    → get_elem? d 4 ≡ some b
    → InLoop
        (λ s. Ensures (λ r. r.0 ≡ (b == 0)) (handle_udp k s (some exit)))
        (hear_first cfg arp buffer sent (some (from, d)))
unfolding hear_first recv_into
hear_first-exit cfg arp buffer sent from d b k short fifth =
    exit_exact k _ b
      (rw (take-all buflen d short) (get_elem?-append d (drop (length d) buffer) 4 fifth))
