-- ===== src/Tunnel/EndToEnd.antt =====
-- An IP packet on its way through the two programs: from the TUN device to its destination, and
-- from the proxy's interface to the TUN device.
use matador.Base.{
  ◌≡◌, ◌≤◌, refl, arith, Option, some, List, [], ◌∷◌, ◌++◌, append-nil, length, ◌==◌, if◌then◌else◌,
  ◌>>=◌, Bool-cases, inl, inr, length-append, take-all, Runs, Runs-some, Runs-bind, ==-of_lt,
}
use matador.Memory.{Bytes}
use matador.Proxy.{Config, State, Effect, send_tunnel, buflen, fd_setsize}
use matador.Proxy.Raw.{handle_raw}
use matador.Proxy.Udp.{Sockets, handle_udp}
use matador.Proxy.Safety.{IsUsable}
use matador.Proxy.Frames.{
  IpPacket, IsIp, encode_ip, ip_frame, IsFrame, encode_frame, is_forwarded, action,
}
use matador.Proxy.Forwarding.{KeepsReply, handle_raw-action}
use matador.Proxy.Outgoing.{sends_out, handle_udp-sends_out, protocol_at-encode, length-encode_ip}
use matador.Tunnel.Packets.{tun_packet_received, child_write}

-- The proxy takes the datagrams one by one.
abbrev pub deliver : Sockets → State → List Bytes → Option (State × List Effect)
deliver k s [] = some (s, [])
deliver k s (d ∷ ds) = do
  r ← handle_udp k s (some d)
  later ← deliver k r.1 ds
  some (later.0, r.2 ++ later.1)

-- What the child process of the tunnel writes to its device.
abbrev pub to_device : List Effect → List Bytes
to_device [] = []
to_device (send_tunnel to d ∷ out) = child_write (some d) ++ to_device out
to_device (_ ∷ out) = to_device out

-- A packet that the device delivers is handed to the proxy in one datagram, unchanged, if it is not
-- TCP, and a TCP packet is not handed to it. The proxy sends what it is handed to its destination,
-- unchanged. For UDP the descriptor of the new socket is to index `fd_udp_port`.
pub tun_packet_received-deliver :
    (k : Sockets) (s : State) (p : IpPacket)
    → length s.fd_udp_port ≡ fd_setsize
    → (p.protocol ≡ 17 → IsUsable k)
    → IsIp p
    → length (encode_ip p) ≤ buflen
    → (tun_packet_received (encode_ip p) ≡ some (if p.protocol == 6 then [] else encode_ip p ∷ []))
      × Runs (λ r. r.1 ≡ sends_out k p) (tun_packet_received (encode_ip p) >>= deliver k s)
unfolding tun_packet_received
tun_packet_received-deliver k s p size u ok short =
    rw (protocol_at-encode p ok) (elim (Bool-cases (p.protocol == 6)) [
      | inl tcp ↦ rw tcp (refl, Runs-some _ refl)
      | inr other ↦ rw other (
        refl,
        Runs-bind _ (handle_udp-sends_out k s p size u ok short)
            λ r _ q. Runs-some _ (rw (append-nil r.2, q.1.1, other) refl),
      )
    ])

-- A frame with an IP packet makes the child write that packet to the device, unchanged, if the
-- proxy is to forward it, and nothing otherwise.
pub handle_raw-to_device :
    (cfg : Config) (s : State) (macs : Bytes) (p : IpPacket)
    → KeepsReply cfg s
    → IsFrame (ip_frame macs p)
    → length (encode_frame (ip_frame macs p)) ≤ buflen
    → Runs
        (λ r. to_device r.1 ≡ (if is_forwarded cfg s p then encode_ip p ∷ [] else []))
        (handle_raw cfg s (some (encode_frame (ip_frame macs p))))
unfolding action child_write
handle_raw-to_device cfg s macs p keeps ok short =
    let n = length (encode_ip p) in
    let fits : n ≤ 65535 =
      unfold encode_frame in (omega (arith, length-append macs (8 ∷ 0 ∷ encode_ip p))) in
    rw (handle_raw-action cfg s (ip_frame macs p) keeps ok short) (
      Runs-some _ (elim (Bool-cases (is_forwarded cfg s p)) [
        | inl goes ↦
            rw
              (
                goes,
                take-all 65535 (encode_ip p) fits,
                ==-of_lt n 0 (omega (arith, length-encode_ip p ok.1)),
              )
              refl
        | inr stays ↦ rw stays refl
      ]))
