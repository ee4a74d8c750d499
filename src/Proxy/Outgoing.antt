-- ===== src/Proxy/Outgoing.antt =====
-- measurement_proxy/proxy.c: `handle_udp` beside a description of the packets it sends.
use matador.Base.{
  ◌+◌, ◌≡◌, ◌≤◌, refl, arith, true, false, some, List, [], ◌∷◌, ◌++◌, length, drop, get_elem?, ◌==◌,
  if◌then◌else◌, Bool-cases, inl, inr, length-append, take-all, take-append, leb, Runs, Runs-some,
  Runs-bind, ==-of_lt, append-nil,
}
use matador.Memory.{Bytes, be16, be16_at, be32_at, recv_into}
use matador.Memory.Laws.{head16-be16, head32-be32}
use matador.BindPublic.{inet}
use matador.BindPublic.Rebind.{target, bind_public-target}
use matador.Proxy.{State, Effect, send_packet, open_fake, buflen, fd_setsize, slice}
use matador.Proxy.Udp.{Sockets, fd_of, send_raw, open_and_send, handle_packet, handle_udp}
use matador.Proxy.Safety.{IsUsable, set_fd_udp_port-Runs}
use matador.Proxy.Fields.{Two, two, Nine, nine, Two-of, Nine-of}
use matador.Proxy.Frames.{IpPacket, IsIp, encode_ip}

-- What leaves the proxy for a packet: TCP is dropped, anything else goes to its destination as it
-- is, and in front of a UDP packet a socket is bound to its source port.
abbrev pub sends_out : Sockets → IpPacket → List Effect
sends_out k p =
    if p.protocol == 6
    then []
    else if p.protocol == 17
    then open_fake (fd_of k.socket)
        (target k.resolve (inet (record { sin_port = p.source; s_addr = 0 })) ∷ [])
      ∷ send_packet p.daddr (encode_ip p)
      ∷ []
    else send_packet p.daddr (encode_ip p) ∷ []

record PacketReads (buf : Bytes) (p : IpPacket) : Type 0 where
  protocol_at : get_elem? buf 9 ≡ some p.protocol
  daddr_at : be32_at buf 16 ≡ some p.daddr
  source_at : be16_at buf 20 ≡ some p.source
  dest_at : be16_at buf 22 ≡ some p.dest
  size : 24 ≤ length (encode_ip p)

packet_reads :
    (post : Bytes) (p : IpPacket) {before checksum : Bytes}
    → Nine before
    → Two checksum
    → IsIp p
    → let q : IpPacket = record p { before = before; checksum = checksum } in
      PacketReads (encode_ip q ++ post) q
unfolding encode_ip be16_at be32_at
packet_reads post p (nine a b c d e f g h i) (two x y) ok = record {
  protocol_at = refl;
  daddr_at = head32-be32 p.daddr ((be16 p.source ++ (be16 p.dest ++ p.body)) ++ post) ok.daddr;
  source_at = head16-be16 p.source ((be16 p.dest ++ p.body) ++ post) ok.source;
  dest_at = head16-be16 p.dest (p.body ++ post) ok.dest;
  size = omega arith;
}

send_raw-sent :
    (s : State) (p : IpPacket) (post : Bytes)
    → s.buffer ≡ encode_ip p ++ post
    → PacketReads s.buffer p
    → send_raw s (length (encode_ip p)) ≡ some (s, send_packet p.daddr (encode_ip p) ∷ [])
unfolding send_raw
send_raw-sent s p post e r =
    let fits : leb (0 + length (encode_ip p)) (length s.buffer) ≡ true =
      rw e (ground (arith, length-append (encode_ip p) post)) in
    let sent : slice s.buffer 0 (length (encode_ip p)) ≡ some (encode_ip p) =
      rw (fits, e, take-append (encode_ip p) post) in
    rw (r.daddr_at, sent)

-- The result of a handler that keeps the packet in the buffer.
abbrev Sends : Bytes → List Effect → State × List Effect → Type 0
Sends buffer out r = (r.0.buffer ≡ buffer) × (r.1 ≡ out)

abbrev sends_udp : Sockets → IpPacket → List Effect
sends_udp k p =
    open_fake (fd_of k.socket)
      (target k.resolve (inet (record { sin_port = p.source; s_addr = 0 })) ∷ [])
    ∷ send_packet p.daddr (encode_ip p)
    ∷ []

module _ (k : Sockets) (s : State) (p : IpPacket) (post : Bytes)
    (e : s.buffer ≡ encode_ip p ++ post) (r : PacketReads s.buffer p) where
  open_and_send-Sends :
      length s.fd_udp_port ≡ fd_setsize
      → IsUsable k
      → Runs (Sends s.buffer (sends_udp k p)) (open_and_send k s (length (encode_ip p)))
  unfolding open_and_send
  open_and_send-Sends size u =
      rw (r.source_at, r.dest_at)
        (Runs-bind _
          (bind_public-target k.resolve k.bind (inet (record { sin_port = p.source; s_addr = 0 }))
            u.honest)
          λ bound _ b. Runs-bind _ (set_fd_udp_port-Runs k s.fd_udp_port p.dest u size) λ ports _ _.
            rw
              (send_raw-sent (record s { fd_udp_port = ports; maxfd = k.socket }) p post e
                (record {
                  protocol_at = r.protocol_at;
                  daddr_at = r.daddr_at;
                  source_at = r.source_at;
                  dest_at = r.dest_at;
                  size = r.size;
                }))
              (Runs-some _ (refl, rw b.1)))

  handle_packet-Sends :
      length s.fd_udp_port ≡ fd_setsize
      → (p.protocol ≡ 17 → IsUsable k)
      → Runs (Sends s.buffer (sends_out k p)) (handle_packet k s (length (encode_ip p)))
  unfolding handle_packet
  handle_packet-Sends size u = rw (r.protocol_at) (elim (Bool-cases (p.protocol == 6)) [
    | inl tcp ↦ rw tcp (Runs-some _ (refl, refl))
    | inr other ↦ rw other (elim (Bool-cases (p.protocol == 17)) [
      | inl udp ↦ rw udp (open_and_send-Sends size (u (ground arith)))
      | inr none_of ↦ rw (none_of, send_raw-sent s p post e r) (Runs-some _ (refl, refl))
    ])
  ])

reads-encode : (p : IpPacket) (post : Bytes) → IsIp p → PacketReads (encode_ip p ++ post) p
reads-encode p post ok =
    packet_reads post p (Nine-of p.before ok.before) (Two-of p.checksum ok.checksum) ok

-- A datagram that is an IP packet with at least four bytes behind its header of 20 bytes does not
-- end the loop, and makes the proxy send out what the description says: nothing for TCP, and else
-- the packet as it is, to its destination address. It stays in the buffer. For UDP the descriptor
-- of the new socket is to index `fd_udp_port`.
pub handle_udp-sends_out :
    (k : Sockets) (s : State) (p : IpPacket)
    → length s.fd_udp_port ≡ fd_setsize
    → (p.protocol ≡ 17 → IsUsable k)
    → IsIp p
    → length (encode_ip p) ≤ buflen
    → Runs
        (λ r.
          (r.0 ≡ false)
          × ((r.1.buffer ≡ encode_ip p ++ drop (length (encode_ip p)) s.buffer)
              × (r.2 ≡ sends_out k p)))
        (handle_udp k s (some (encode_ip p)))
unfolding handle_udp recv_into
handle_udp-sends_out k s p size u ok short =
    let d = encode_ip p in
    let post = drop (length d) s.buffer in
    let s' : State = record s { buffer = d ++ post } in
    let reads : PacketReads s'.buffer p = reads-encode p post ok in
    rw
      (
        take-all buflen d short,
        ==-of_lt (length d) 4 (omega (arith, reads.size)),
        ==-of_lt (length d) 0 (omega (arith, reads.size)),
      )
      (Runs-bind _ (handle_packet-Sends k s' p post refl reads size u)
        λ r _ q. Runs-some _ (refl, (q.0, q.1)))

pub protocol_at-encode : (p : IpPacket) → IsIp p → get_elem? (encode_ip p) 9 ≡ some p.protocol
protocol_at-encode p ok = rw (append-nil (encode_ip p)) at (reads-encode p [] ok).protocol_at

pub length-encode_ip : (p : IpPacket) → IsIp p → 24 ≤ length (encode_ip p)
length-encode_ip p ok = (reads-encode p [] ok).size
