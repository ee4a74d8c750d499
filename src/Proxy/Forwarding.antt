-- ===== src/Proxy/Forwarding.antt =====
-- measurement_proxy/proxy.c: `handle_raw` beside a description of the frames it takes.
use matador.Base.{
  ◌+◌, ◌≡◌, ◌<◌, ◌≤◌, refl, ap, sym, ◌∙◌, arith, true, false, ◌||◌, some, [], ◌∷◌, ◌++◌, length,
  take, drop, ◌==◌, if◌then◌else◌, Bool-cases, inl, inr, length-append, length-drop, take-all, leb,
  replicate, take-append,
}
use matador.Memory.{Bytes, be16, write_at, recv_into}
use matador.Memory.Laws.{write_at-append}
use matador.Proxy.{Config, State, send_tunnel, buflen, slice}
use matador.Proxy.Arp.{handle_arp}
use matador.Proxy.Raw.{skip_packet, payload_size, handle_ip, handle_frame, handle_raw}
use matador.Proxy.Fields.{IpReads, ArpReads, ip_frame_reads, arp_frame_reads, frame_type_at}
use matador.Proxy.ArpFrame.{arp_reply}
use matador.Proxy.Frames.{
  ArpPacket, IpPacket, Frame, arp_frame, ip_frame, other_frame, encode_ip, encode_arp, encode_frame,
  IsFrame, is_own, is_forwarded, is_asked, action,
}

module _ (cfg : Config) (s : State) (p : IpPacket) (post : Bytes) where
  skip_packet-reads :
      IpReads s.buffer post p
      → skip_packet cfg s p.protocol ≡ some (p.protocol == 6 || is_own cfg s p)
  unfolding skip_packet
  skip_packet-reads r = elim (Bool-cases (p.protocol == 6)) [
    | inl tcp ↦ rw tcp
    | inr other ↦ elim (Bool-cases (p.protocol == 17)) [
      | inl udp ↦ rw (other, udp, r.saddr_at, r.source_at, r.dest_at)
      | inr none_of ↦ rw (other, none_of)
    ]
  ]

  -- `handle_ip`, given what the fields read as.
  handle_ip-reads :
      IpReads s.buffer post p
      → length (encode_ip p) ≤ 65521
      → handle_ip cfg s (14 + length (encode_ip p))
        ≡ some (
          s,
          if is_forwarded cfg s p then send_tunnel s.udp_client_addr (encode_ip p) ∷ [] else [],
        )
  unfolding handle_ip
  handle_ip-reads r short =
      let n = length (encode_ip p) in
      let size : payload_size (14 + n) ≡ n = unfold payload_size in (omega arith) in
      let fits : leb (14 + n) (length s.buffer) ≡ true = ground (
        arith,
        length-drop 14 s.buffer,
        ap length r.packet_at,
        length-append (encode_ip p) post,
        r.size,
      ) in
      let sent : slice s.buffer 14 n ≡ some (encode_ip p) =
        rw (fits, r.packet_at, take-append (encode_ip p) post) in
      rw (r.daddr_at, r.protocol_at, skip_packet-reads r, size, sent) (ground arith)

-- The frame that the proxy keeps: an ARP reply for its address, to whoever asked last.
pub record KeepsReply (cfg : Config) (s : State) : Type 0 where
  pub asker : Bytes
  pub asker_size : length asker ≡ 6
  pub arp_is : s.arp ≡ arp_reply asker cfg.if_raw_mac cfg.if_raw_addr

abbrev pub arp_after : Config → State → Frame → Bytes
arp_after cfg s (arp_frame macs p) =
    if is_asked cfg p then arp_reply p.sender_mac cfg.if_raw_mac cfg.if_raw_addr else s.arp
arp_after cfg s _ = s.arp

handle_arp-reads :
    (cfg : Config) (s : State) (p : ArpPacket) (macs : Bytes)
    → KeepsReply cfg s
    → length p.sender_mac ≡ 6
    → ArpReads s.buffer p
    → handle_arp cfg s
      ≡ some
          (record s { arp = arp_after cfg s (arp_frame macs p) }, action cfg s (arp_frame macs p))
unfolding handle_arp action
handle_arp-reads cfg s p macs keeps size r =
    let written : write_at s.arp 0 p.sender_mac
        ≡ some (arp_reply p.sender_mac cfg.if_raw_mac cfg.if_raw_addr) =
      rw keeps.arp_is (
        write_at-append [] keeps.asker p.sender_mac
          (drop 6 (arp_reply (replicate 6 0) cfg.if_raw_mac cfg.if_raw_addr))
          (keeps.asker_size ∙ sym size)) in
    rw (r.opcode_at, r.target_at)
      (elim (Bool-cases (is_asked cfg p)) [
        | inl asked ↦ rw (asked, r.sender_at, written)
        | inr other ↦ rw other
      ])

-- What the dispatch does with a frame in the buffer.
handle_frame-action :
    (cfg : Config) (s : State) (f : Frame) (post : Bytes)
    → KeepsReply cfg s
    → IsFrame f
    → length (encode_frame f) ≤ 65535
    → s.buffer ≡ encode_frame f ++ post
    → handle_frame cfg s (length (encode_frame f))
      ≡ some (record s { arp = arp_after cfg s f }, action cfg s f)
unfolding handle_frame action encode_frame
handle_frame-action cfg s (arp_frame macs p) post keeps ok short e =
    rw (frame_type_at s.buffer macs (encode_arp p) post 0x0806 ok.0 (omega arith) e) (
      handle_arp-reads cfg s p macs keeps ok.1.sender_mac
        (arp_frame_reads s.buffer macs post p ok e))
handle_frame-action cfg s (ip_frame macs p) post keeps ok short e =
    let size : length (macs ++ (8 ∷ 0 ∷ encode_ip p)) ≡ 14 + length (encode_ip p) =
      omega (arith, length-append macs (8 ∷ 0 ∷ encode_ip p), ok.0) in
    rw (frame_type_at s.buffer macs (encode_ip p) post 0x0800 ok.0 (omega arith) e, size)
      (handle_ip-reads cfg s p post (ip_frame_reads s.buffer macs post p ok e) (omega arith))
handle_frame-action cfg s (other_frame macs type payload) post keeps ok short e =
    rw (frame_type_at s.buffer macs payload post type ok.0 ok.1 e) (ground (arith, ok.2))

frame-pos : (f : Frame) → IsFrame f → 0 < length (encode_frame f)
unfolding encode_frame
frame-pos (arp_frame macs p) ok = omega (arith, length-append macs (8 ∷ 6 ∷ encode_arp p))
frame-pos (ip_frame macs p) ok = omega (arith, length-append macs (8 ∷ 0 ∷ encode_ip p))
frame-pos (other_frame macs type payload) ok =
    omega (arith, length-append macs (be16 type ++ payload))

-- What a frame makes the proxy send, and how it changes the state: the buffer takes the frame, and
-- the kept ARP reply is turned to the host that asked. The frame is any ARP, IP or other frame of
-- at most BUFLEN bytes; a forwarded packet leaves as the frame held it.
pub handle_raw-action :
    (cfg : Config) (s : State) (f : Frame)
    → KeepsReply cfg s
    → IsFrame f
    → length (encode_frame f) ≤ buflen
    → handle_raw cfg s (some (encode_frame f))
      ≡ some (
        record s {
          buffer = encode_frame f ++ drop (length (encode_frame f)) s.buffer;
          arp = arp_after cfg s f;
        },
        action cfg s f,
      )
unfolding handle_raw recv_into action
handle_raw-action cfg s f keeps ok short =
    let whole : take buflen (encode_frame f) ≡ encode_frame f =
      take-all buflen (encode_frame f) short in
    let s' = record s { buffer = encode_frame f ++ drop (length (encode_frame f)) s.buffer } in
    let nonempty : (length (encode_frame f) == 0) ≡ false = ground (arith, frame-pos f ok) in
    rw (whole, nonempty)
      (handle_frame-action cfg s' f (drop (length (encode_frame f)) s.buffer)
        (record { asker = keeps.asker; asker_size = keeps.asker_size; arp_is = keeps.arp_is }) ok
        short refl)

-- The kept frame stays an ARP reply for the proxy's address.
pub arp_after-KeepsReply :
    (cfg : Config) (s : State) (f : Frame)
    → IsFrame f
    → KeepsReply cfg s
    → KeepsReply cfg (record s { arp = arp_after cfg s f })
arp_after-KeepsReply cfg s (arp_frame macs p) ok keeps = record {
  asker = if is_asked cfg p then p.sender_mac else keeps.asker;
  asker_size = ground (arith, ok.1.sender_mac, keeps.asker_size);
  arp_is = ground (arith, keeps.arp_is);
}
arp_after-KeepsReply cfg s (ip_frame macs p) ok keeps = record {
  asker = keeps.asker;
  asker_size = keeps.asker_size;
  arp_is = keeps.arp_is;
}
arp_after-KeepsReply cfg s (other_frame macs type payload) ok keeps = record {
  asker = keeps.asker;
  asker_size = keeps.asker_size;
  arp_is = keeps.arp_is;
}
