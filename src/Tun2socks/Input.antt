-- ===== src/Tun2socks/Input.antt =====
-- tun2socks.c: where a packet from the device goes: `device_read_handler_send` with the callback that
-- tunnel.c registers, and the pbuf in between.
use matador.Base.{
  ℕ, ◌+◌, ◌≡◌, refl, arith, Bool, true, false, not, Option, some, List, [], ◌∷◌, ◌++◌, length, ltb,
  leb, ◌==◌, ◌&&◌, if◌then◌else◌, Bool-cases, inl, inr, Runs, Runs-some, Runs-if, ◌∙◌, ◌>>=◌,
}
use matador.Memory.{Bytes}
use matador.Tun2socks.Device.{
  Handed, to_tunnel, ip_input, ip6_input, packet_done, pbuf_free, Reading, ip_version,
  netif_input_func, device_read_handler_send, callback, read_end,
}
use matador.Proxy.Frames.{IpPacket, IsIp, encode_ip}
use matador.Proxy.Outgoing.{protocol_at-encode}
use matador.Tunnel.Packets.{tun_packet_received}

-- How often the pbuf is given up: freed here, or taken by lwIP, which keeps it if it returns ERR_OK.
abbrev pub given_up : Bool → List Handed → ℕ
given_up ok [] = 0
given_up ok (pbuf_free ∷ hs) = 1 + given_up ok hs
given_up ok (ip_input p ∷ hs) = (if ok then 1 else 0) + given_up ok hs
given_up ok (ip6_input p ∷ hs) = (if ok then 1 else 0) + given_up ok hs
given_up ok (_ ∷ hs) = given_up ok hs

-- A packet is copied to a pbuf if it is not too large and there is one.
abbrev pub is_copied : Reading → Bytes → Bool
is_copied a packet = leb (length packet) 65535 && a.allocated

given_up-callback :
    (ok : Bool) (a : Reading) (packet : Bytes) (hs : List Handed)
    → given_up ok (callback a packet ++ hs) ≡ given_up ok hs
given_up-callback ok a packet hs = elim (Bool-cases a.has_callback) [
  | inl e ↦ rw e refl
  | inr e ↦ rw e refl
]

-- Freed, or taken over with ERR_OK, or freed behind a failure.
given_up-read_end :
    (has_ip6addr ok : Bool) (packet : Bytes)
    → given_up ok (read_end (netif_input_func has_ip6addr ok packet)) ≡ 1
unfolding netif_input_func
given_up-read_end has6 ok packet = ground arith

-- The pbuf of each packet that is copied to one is given up exactly once, whatever its version is and
-- whatever lwIP answers; with no pbuf none is freed.
pub device_read_handler_send-given_up :
    (has_ip6addr : Bool) (a : Reading) (packet : Bytes)
    → Runs
        (λ hs. given_up a.input_ok hs ≡ (if is_copied a packet then 1 else 0))
        (device_read_handler_send false has_ip6addr a packet)
unfolding device_read_handler_send
device_read_handler_send-given_up has6 a packet =
    let done : List Handed = packet_done ∷ [] in
    Runs-if (ltb 65535 (length packet)) _ _
      (λ large.
        let none_copied : is_copied a packet ≡ false = ground (arith, large) in
        Runs-some _ (rw none_copied (given_up-callback a.input_ok a packet done)))
      λ fits.
        Runs-if (not a.allocated) _ _
          (λ failed.
            let none_copied : is_copied a packet ≡ false = ground (arith, failed) in
            Runs-some _ (rw none_copied (given_up-callback a.input_ok a packet done)))
          λ got.
            let copied : is_copied a packet ≡ true = ground (arith, fits, got) in
            Runs-some _ (
              rw copied (
                given_up-callback a.input_ok a packet _ ∙ given_up-read_end has6 a.input_ok packet))

-- The datagrams that the tunnel sends to the proxy for what it is handed, and what lwIP is handed.
abbrev pub proxied : List Handed → Option (List Bytes)
proxied [] = some []
proxied (to_tunnel b ∷ hs) =
    tun_packet_received b >>= λ ds. proxied hs >>= λ rest. some (ds ++ rest)
proxied (_ ∷ hs) = proxied hs

-- The calls of lwIP, in order, each with its packet.
abbrev pub lwip_inputs : List Handed → List Handed
lwip_inputs [] = []
lwip_inputs (ip_input b ∷ hs) = ip_input b ∷ lwip_inputs hs
lwip_inputs (ip6_input b ∷ hs) = ip6_input b ∷ lwip_inputs hs
lwip_inputs (_ ∷ hs) = lwip_inputs hs

-- An IPv4 packet that the device delivers is handed to `ip_input`, unchanged, if a pbuf can be had for
-- it, and dropped for lwIP otherwise. It goes to the proxy, unchanged, if a callback is registered and
-- the packet is not TCP, whether there is a pbuf or not.
pub device_read_handler_send-routes :
    (has_ip6addr : Bool) (a : Reading) (p : IpPacket)
    → IsIp p
    → ip_version (encode_ip p) ≡ 4
    → Runs
        (λ hs.
          (lwip_inputs hs ≡ (if is_copied a (encode_ip p) then ip_input (encode_ip p) ∷ [] else []))
          × (proxied hs
              ≡ some (if a.has_callback && not (p.protocol == 6) then encode_ip p ∷ [] else [])))
        (device_read_handler_send false has_ip6addr a (encode_ip p))
unfolding device_read_handler_send netif_input_func tun_packet_received
device_read_handler_send-routes has6 a p ok four =
    let packet = encode_ip p in
    Runs-if (ltb 65535 (length packet)) _ _
      (λ large.
        let none_copied : is_copied a packet ≡ false = ground (arith, large) in
        Runs-some _ (rw none_copied (called (packet_done ∷ []) refl refl)))
      λ fits.
        Runs-if (not a.allocated) _ _
          (λ failed.
            let none_copied : is_copied a packet ≡ false = ground (arith, failed) in
            Runs-some _ (rw none_copied (called (packet_done ∷ []) refl refl)))
          λ got.
            let copied : is_copied a packet ≡ true = ground (arith, fits, got) in
            Runs-some _ (
              rw (copied, four)
                (elim (Bool-cases a.input_ok) [
                  | inl fine ↦ rw fine (called (packet_done ∷ ip_input packet ∷ []) refl refl)
                  | inr failed ↦
                      rw failed (called (packet_done ∷ ip_input packet ∷ pbuf_free ∷ []) refl refl)
                ]))
  where
    called :
        {want : List Handed} (hs : List Handed)
        → lwip_inputs hs ≡ want
        → proxied hs ≡ some []
        → (lwip_inputs (callback a (encode_ip p) ++ hs) ≡ want)
          × (proxied (callback a (encode_ip p) ++ hs)
              ≡ some (if a.has_callback && not (p.protocol == 6) then encode_ip p ∷ [] else []))
    called hs e f = elim (Bool-cases a.has_callback) [
      | inr none_there ↦ rw none_there (e, f)
      | inl there ↦
          rw (there, protocol_at-encode p ok, f)
            (
              e,
              elim (Bool-cases (p.protocol == 6)) [
                | inl tcp ↦ rw tcp refl
                | inr other ↦ rw other refl
              ],
            )
    ]
