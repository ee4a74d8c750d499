-- ===== src/Examples/Relay.antt =====
-- Concrete runs of the loop of measurement_proxy/proxy.c: an ARP request, pings and UDP packets.
use matador.Base.{
  ◌≡◌, refl, arith, false, none, some, [], ◌∷◌, ◌++◌, length, drop, Runs, Ensures, ◌>>=◌,
}
use matador.Base.Int.{pos}
use matador.Proxy.Raw.{handle_raw}
use matador.Proxy.Udp.{handle_udp}
use matador.Proxy.Loop.{run}
use matador.Proxy.Frames.{arp_frame, ip_frame, encode_ip, encode_frame, action}
use matador.Proxy.Forwarding.{arp_after, handle_raw-action}
use matador.Proxy.Drains.{QuietRun, run-QuietRun}
use matador.Proxy.Exhaustion.{run-exhausted}
use matador.Proxy.Outgoing.{sends_out, handle_udp-sends_out}
use matador.Tunnel.EndToEnd.{tun_packet_received-deliver, handle_raw-to_device, deliver, to_device}
use matador.Tunnel.Packets.{tun_packet_received}
use matador.Examples.Network.{
  cfg, zeros, start_state, start_state-IsSized, start_state-KeepsReply, macs, request,
  request-IsFrame, packet, packet-IsIp, packet_size, frame_size, request_size, sockets,
  sockets-IsUsable, udp_packet, kernel, kernel-IsSelect, only_udp, only_udp-DeliversUdp,
}

handle_raw-action_example :
    handle_raw cfg start_state (some (encode_frame (arp_frame macs request)))
    ≡ some (
      record start_state {
        buffer =
            encode_frame (arp_frame macs request)
            ++ drop (length (encode_frame (arp_frame macs request))) zeros;
        arp = arp_after cfg start_state (arp_frame macs request);
      },
      action cfg start_state (arp_frame macs request),
    )
handle_raw-action_example =
    handle_raw-action cfg start_state (arp_frame macs request) start_state-KeepsReply
      request-IsFrame (omega (arith, request_size))

handle_raw-to_device_example :
    Runs
      (λ r. to_device r.1 ≡ encode_ip (packet 1) ∷ [])
      (handle_raw cfg start_state (some (encode_frame (ip_frame macs (packet 1)))))
handle_raw-to_device_example =
    handle_raw-to_device cfg start_state macs (packet 1) start_state-KeepsReply
      (refl, packet-IsIp 1) (omega (arith, frame_size 1))

handle_udp-sends_out_example :
    Runs
      (λ r.
        (r.0 ≡ false)
        × ((r.1.buffer ≡ udp_packet ++ drop (length udp_packet) zeros)
            × (r.2 ≡ sends_out (sockets (pos 6)) (packet 17))))
      (handle_udp (sockets (pos 6)) start_state (some udp_packet))
handle_udp-sends_out_example =
    handle_udp-sends_out (sockets (pos 6)) start_state (packet 17) start_state-IsSized.ports_size
      (λ e. sockets-IsUsable) (packet-IsIp 17) (omega (arith, packet_size 17))

tun_packet_received-deliver_example :
    (tun_packet_received (encode_ip (packet 6)) ≡ some [])
    × Runs
        (λ r. r.1 ≡ sends_out (sockets (pos 6)) (packet 6))
        (tun_packet_received (encode_ip (packet 6)) >>= deliver (sockets (pos 6)) start_state)
tun_packet_received-deliver_example =
    tun_packet_received-deliver (sockets (pos 6)) start_state (packet 6)
      start_state-IsSized.ports_size (λ e. sockets-IsUsable) (packet-IsIp 6)
      (omega (arith, packet_size 6))

run-QuietRun_example : Ensures QuietRun (run cfg start_state (kernel 6 ∷ kernel 7 ∷ []))
run-QuietRun_example =
    run-QuietRun cfg start_state (kernel 6 ∷ kernel 7 ∷ [])
      (record { udp_first = omega arith; send_last = omega arith })
      (kernel-IsSelect, (kernel-IsSelect, tt)) (record { low = λ fd h. refl })

run-exhausted_example : run cfg start_state (only_udp 1023 ∷ only_udp 1024 ∷ []) ≡ none
run-exhausted_example =
    run-exhausted cfg start_state 1023 (only_udp 1023 ∷ only_udp 1024 ∷ [])
      start_state-IsSized.ports_size (omega arith)
      (only_udp-DeliversUdp 1023, (only_udp-DeliversUdp 1024, tt)) (omega arith)
