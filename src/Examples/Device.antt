-- ===== src/Examples/Device.antt =====
-- Concrete packets of the TUN device of measurement_proxy/tun2socks/tun2socks/tun2socks.c: one of two
-- chunks to the device, and a UDP packet from it.
use matador.Base.{◌≡◌, refl, arith, true, false, some, [], ◌∷◌, if◌then◌else◌, replicate, Runs}
use matador.CText.{text}
use matador.Proxy.Frames.{IpPacket, encode_ip}
use matador.Tun2socks.Device.{Reading, ip_input, common_netif_output, device_read_handler_send}
use matador.Tun2socks.Output.{common_netif_output-sent_whole}
use matador.Tun2socks.Input.{
  given_up, lwip_inputs, is_copied, proxied, device_read_handler_send-given_up,
  device_read_handler_send-routes,
}

common_netif_output-sent_whole_example :
    common_netif_output false 6 (replicate 6 0) (text "abc" ∷ text "def" ∷ [])
    ≡ some (text "abcdef" ∷ [])
common_netif_output-sent_whole_example =
    common_netif_output-sent_whole false 6 (replicate 6 0) (text "abc") (text "def" ∷ []) refl

abbrev reads : Reading
reads = record { has_callback = true; allocated = true; input_ok = true }

abbrev packet : IpPacket
packet = record {
  before = 69 ∷ replicate 8 0;
  protocol = 17;
  checksum = 0 ∷ 0 ∷ [];
  saddr = 167772162;
  daddr = 134744072;
  source = 5000;
  dest = 53;
  body = text "query";
}

device_read_handler_send-given_up_example :
    Runs (λ hs. given_up true hs ≡ 1) (device_read_handler_send false false reads (text "Ehello"))
device_read_handler_send-given_up_example =
    device_read_handler_send-given_up false reads (text "Ehello")

packet_version : matador.Tun2socks.Device.ip_version (encode_ip packet) ≡ 4
unfolding encode_ip
packet_version = refl

device_read_handler_send-routes_example :
    Runs
      (λ hs.
        (lwip_inputs hs
          ≡ (if is_copied reads (encode_ip packet) then ip_input (encode_ip packet) ∷ [] else []))
        × (proxied hs ≡ some (encode_ip packet ∷ [])))
      (device_read_handler_send false false reads (encode_ip packet))
device_read_handler_send-routes_example =
    device_read_handler_send-routes false reads packet
      (record {
        before = refl;
        checksum = refl;
        saddr = omega arith;
        daddr = omega arith;
        source = omega arith;
        dest = omega arith;
      })
      packet_version
