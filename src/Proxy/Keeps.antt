-- ===== src/Proxy/Keeps.antt =====
-- What the handlers of the proxy leave alone.
use matador.Base.{
  ℕ, ◌≡◌, refl, false, ◌&&◌, Option, none, some, List, [], ◌∷◌, ◌++◌, length, take, get_elem?, ◌==◌,
  ◌>>=◌, Ensures, Ensures-some, Ensures-bind, Ensures-if,
}
use matador.Memory.{Bytes, be32, be16_at, be32_at, write_at, recv_into}
use matador.CText.{text, streq}
use matador.BindPublic.{inet, bind_public}
use matador.Proxy.{
  Config, State, Effect, send_frame, send_tunnel, send_packet, open_fake, drain, FdSet, buflen,
  slice, ipproto_tcp, ipproto_udp, eth_p_arp, eth_p_ip,
}
use matador.Proxy.Arp.{handle_arp}
use matador.Proxy.Raw.{skip_packet, payload_size, handle_ip, handle_frame, handle_raw}
use matador.Proxy.Udp.{
  Sockets, set_fd_udp_port, fd_of, send_raw, behind, open_and_send, handle_packet, holds_text,
  handle_udp,
}

abbrev pub NoDrains : List Effect → Type 0
NoDrains [] = Unit
NoDrains (drain fd ∷ out) = ⊥
NoDrains (e ∷ out) = NoDrains out

pub NoDrains-append : (xs ys : List Effect) → NoDrains xs → NoDrains ys → NoDrains (xs ++ ys)
NoDrains-append [] ys h k = k
NoDrains-append (send_frame b ∷ xs) ys h k = NoDrains-append xs ys h k
NoDrains-append (send_tunnel a b ∷ xs) ys h k = NoDrains-append xs ys h k
NoDrains-append (send_packet a b ∷ xs) ys h k = NoDrains-append xs ys h k
NoDrains-append (open_fake fd b ∷ xs) ys h k = NoDrains-append xs ys h k
NoDrains-append (drain fd ∷ xs) ys h k = absurd h

-- A handler keeps the set of watched descriptors, and does not touch the fake sockets.
pub record Keeps (rset : FdSet) (r : State × List Effect) : Type 0 where
  pub same_rset : r.0.rset ≡ rset
  pub no_drains : NoDrains r.1

-- A handler of a packet keeps the buffer too.
pub record KeepsBuffer (s : State) (r : State × List Effect) : Type 0 where
  pub same_buffer : r.0.buffer ≡ s.buffer
  pub keeps : Keeps s.rset r

same : (s : State) → KeepsBuffer s (s, [])
same s = record { same_buffer = refl; keeps = record { same_rset = refl; no_drains = tt } }

send_raw-KeepsBuffer : (s : State) (n : ℕ) → Ensures (KeepsBuffer s) (send_raw s n)
unfolding send_raw
send_raw-KeepsBuffer s n =
    Ensures-bind (be32_at s.buffer 16)
      (λ daddr. slice s.buffer 0 n >>= λ packet. some (s, send_packet daddr packet ∷ []))
      λ daddr _.
        Ensures-bind (slice s.buffer 0 n) (λ packet. some (s, send_packet daddr packet ∷ []))
          λ packet _.
            Ensures-some _
              (record { same_buffer = refl; keeps = record { same_rset = refl; no_drains = tt } })

open_and_send-KeepsBuffer :
    (k : Sockets) (s : State) (n : ℕ) → Ensures (KeepsBuffer s) (open_and_send k s n)
unfolding open_and_send
open_and_send-KeepsBuffer k s n = Ensures-bind (be16_at s.buffer 20) _ λ source _.
    Ensures-bind (bind_public k.resolve k.bind (inet (record { sin_port = source; s_addr = 0 }))) _
      λ bound _. Ensures-bind (be16_at s.buffer 22) _ λ dest _.
        Ensures-bind (set_fd_udp_port s.fd_udp_port k.socket dest) _ λ ports _.
          Ensures-bind (send_raw (record s { fd_udp_port = ports; maxfd = k.socket }) n) _ λ r e.
            let kept =
              (send_raw-KeepsBuffer (record s { fd_udp_port = ports; maxfd = k.socket }) n).at r
                e in
            Ensures-some (behind (open_fake (fd_of k.socket) bound.binds ∷ []) r) (record {
              same_buffer = kept.same_buffer;
              keeps = record { same_rset = kept.keeps.same_rset; no_drains = kept.keeps.no_drains };
            })

pub handle_packet-KeepsBuffer :
    (k : Sockets) (s : State) (n : ℕ) → Ensures (KeepsBuffer s) (handle_packet k s n)
unfolding handle_packet
handle_packet-KeepsBuffer k s n = Ensures-bind (get_elem? s.buffer 9) _ λ protocol _.
    Ensures-if (protocol == ipproto_tcp) _ _ (λ _. Ensures-some _ (same s))
      λ _.
        Ensures-if (protocol == ipproto_udp) _ _ (λ _. open_and_send-KeepsBuffer k s n)
          λ _. send_raw-KeepsBuffer s n

handle_arp-Keeps : (cfg : Config) (s : State) → Ensures (Keeps s.rset) (handle_arp cfg s)
unfolding handle_arp
handle_arp-Keeps cfg s = Ensures-bind (be16_at s.buffer 20) _ λ opcode _.
    Ensures-bind (slice s.buffer 38 4) _ λ target _.
      Ensures-if (opcode == 1 && streq target (be32 cfg.if_raw_addr)) _ _
        (λ _. Ensures-bind (slice s.buffer 22 6) _ λ sender _.
          Ensures-bind (write_at s.arp 0 sender) _ λ arp _.
            Ensures-some (record s { arp = arp }, send_frame arp ∷ [])
              (record { same_rset = refl; no_drains = tt }))
        λ _. Ensures-some _ (same s).keeps

handle_ip-Keeps : (cfg : Config) (s : State) (n : ℕ) → Ensures (Keeps s.rset) (handle_ip cfg s n)
unfolding handle_ip
handle_ip-Keeps cfg s n = Ensures-bind (be32_at s.buffer 30) _ λ daddr _.
    Ensures-if (daddr == cfg.if_raw_addr) _ _
      (λ _. Ensures-bind (get_elem? s.buffer 23) _ λ protocol _.
        Ensures-bind (skip_packet cfg s protocol) _ λ skip _.
          Ensures-if skip _ _ (λ _. Ensures-some _ (same s).keeps)
            λ _. Ensures-bind (slice s.buffer 14 (payload_size n)) _ λ packet _.
              Ensures-some (s, send_tunnel s.udp_client_addr packet ∷ [])
                (record { same_rset = refl; no_drains = tt }))
      λ _. Ensures-some _ (same s).keeps

pub handle_raw-Keeps :
    (cfg : Config) (s : State) (frame : Option Bytes)
    → Ensures (Keeps s.rset) (handle_raw cfg s frame)
unfolding handle_raw handle_frame
handle_raw-Keeps cfg s none = Ensures-some _ (same s).keeps
handle_raw-Keeps cfg s (some frame) =
    let s' = record s { buffer = recv_into s.buffer buflen frame } in
    let n = length (take buflen frame) in
    Ensures-if (n == 0) _ _ (λ _. Ensures-some _ (same s').keeps)
      λ _. Ensures-bind (be16_at s'.buffer 12) _ λ proto _.
        Ensures-if (proto == eth_p_arp) _ _ (λ _. handle_arp-Keeps cfg s')
          λ _.
            Ensures-if (proto == eth_p_ip) _ _ (λ _. handle_ip-Keeps cfg s' n)
              λ _. Ensures-some _ (same s').keeps

pub handle_udp-Keeps :
    (k : Sockets) (s : State) (datagram : Option Bytes)
    → Ensures (λ r. Keeps s.rset (r.1, r.2)) (handle_udp k s datagram)
unfolding handle_udp
handle_udp-Keeps k s none = Ensures-some _ (record { same_rset = refl; no_drains = tt })
handle_udp-Keeps k s (some datagram) =
    let s' = record s { buffer = recv_into s.buffer buflen datagram } in
    let n = length (take buflen datagram) in
    Ensures-if (n == 4 && holds_text s'.buffer (text "EXIT")) _ _
      (λ _. Ensures-some _ (record { same_rset = refl; no_drains = tt }))
      λ _.
        Ensures-if (n == 0) _ _ (λ _. Ensures-some _ (record { same_rset = refl; no_drains = tt }))
          λ _. Ensures-bind (handle_packet k s' n) _ λ r e.
            let kept = ((handle_packet-KeepsBuffer k s' n).at r e).keeps in
            Ensures-some (false, r.0, r.1)
              (record { same_rset = kept.same_rset; no_drains = kept.no_drains })
