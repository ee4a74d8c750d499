-- ===== src/Tunnel/Packets.antt =====
-- measurement_proxy/tunnel.c: the packets between the TUN device and the UDP tunnel:
-- `tun_packet_received`, the callback for what the device reads, and the loop of the child process,
-- which writes what the tunnel delivers to the device.
use matador.Base.{
  ℕ, Option, none, some, List, [], ◌∷◌, ◌++◌, length, get_elem?, take, ◌==◌, if◌then◌else◌, ◌>>=◌,
}
use matador.Memory.{Bytes}

abbrev pub ipproto_tcp : ℕ
ipproto_tcp = 6

-- The datagrams sent to the proxy for one packet: TCP is left to tun2socks.
unfoldable pub tun_packet_received : Bytes → Option (List Bytes)
tun_packet_received buf = do
  protocol ← get_elem? buf 9
  some (if protocol == ipproto_tcp then [] else buf ∷ [])

-- What one `recvfrom` delivers (`none` where it fails) makes the child hand to `tun2socks_write`.
unfoldable pub child_write : Option Bytes → List Bytes
child_write none = []
child_write (some datagram) =
    let got = take 65535 datagram in if length got == 0 then [] else got ∷ []

unfoldable pub child_loop : List (Option Bytes) → List Bytes
child_loop [] = []
child_loop (d ∷ ds) = child_write d ++ child_loop ds

-- The child: the first datagram is dropped, "should have some stun_request results".
unfoldable pub child : List (Option Bytes) → List Bytes
unfolding child_loop
child [] = []
child (d ∷ ds) = child_loop ds
