-- ===== src/Proxy/Exhaustion.antt =====
-- measurement_proxy/proxy.c: a run of the loop of `main` that brings one UDP packet after another.
use matador.Base.{
  ℕ, zero, suc, ◌+◌, ◌≡◌, ◌<◌, ◌≤◌, refl, ap, ◌∙◌, arith, true, false, Option, none, some, List, [],
  ◌∷◌, ◌++◌, length, take, drop, set?, ◌==◌, inl, inr, leb, Bool-cases, Option-cases, take-all,
  ==-of_lt, get_elem?-append, get_elem?-lt, Ensures, Ensures-some, Ensures-bind,
}
use matador.Base.Int.{ℤ, pos, negsuc, is_neg}
use matador.Memory.{Bytes, be16_at, be32_at, recv_into}
use matador.BindPublic.{inet, bind_public}
use matador.Proxy.{Config, State, Effect, send_packet, open_fake, FdSet, buflen, fd_setsize, slice}
use matador.Proxy.Udp.{
  Sockets, set_fd_udp_port, fd_of, send_raw, behind, open_and_send, handle_packet, handle_udp,
}
use matador.Proxy.Descriptors.{IsUdpPacket, handle_udp-outside}
use matador.Proxy.Loop.{
  drain_fake, Kernel, next_fd, watched, Turn, goes_on, finished, select_failed, when_ready, turn,
  Run, after_turn, run,
}

abbrev KeepsTable : State × List Effect → Type 0
KeepsTable r = length r.0.fd_udp_port ≡ fd_setsize

length-set? : (xs : List ℕ) (i v : ℕ) → Ensures (λ ys. length ys ≡ length xs) (set? xs i v)
length-set? [] i v = record { at = λ a e. absurd (ground arith) }
length-set? (x ∷ xs) zero v = Ensures-some _ refl
length-set? (x ∷ xs) (suc i) v = elim (Option-cases (set? xs i v)) [
  | inl e ↦ rw e (record { at = λ a e'. absurd (ground arith) })
  | inr (ys, e) ↦ rw e (Ensures-some (x ∷ ys) (ap suc ((length-set? xs i v).at ys e)))
]

set_fd_udp_port-size :
    (ports : List ℕ) (fd : ℤ) (port : ℕ)
    → length ports ≡ fd_setsize
    → Ensures (λ ys. length ys ≡ fd_setsize) (set_fd_udp_port ports fd port)
unfolding set_fd_udp_port
set_fd_udp_port-size ports (pos fd) port size = record {
  at = λ ys e. (length-set? ports fd port).at ys e ∙ size;
}
set_fd_udp_port-size ports (negsuc n) port size = record { at = λ a e. absurd (ground arith) }

send_raw-KeepsTable :
    (s : State) (n : ℕ) → length s.fd_udp_port ≡ fd_setsize → Ensures KeepsTable (send_raw s n)
unfolding send_raw
send_raw-KeepsTable s n size = Ensures-bind (be32_at s.buffer 16) _ λ daddr _.
    Ensures-bind (slice s.buffer 0 n) _
      λ packet _. Ensures-some (s, send_packet daddr packet ∷ []) size

open_and_send-KeepsTable :
    (k : Sockets) (s : State) (n : ℕ)
    → length s.fd_udp_port ≡ fd_setsize
    → Ensures KeepsTable (open_and_send k s n)
unfolding open_and_send
open_and_send-KeepsTable k s n size = Ensures-bind (be16_at s.buffer 20) _ λ source _.
    Ensures-bind (bind_public k.resolve k.bind (inet (record { sin_port = source; s_addr = 0 }))) _
      λ bound _. Ensures-bind (be16_at s.buffer 22) _ λ dest _.
        Ensures-bind (set_fd_udp_port s.fd_udp_port k.socket dest) _ λ ports e.
          let kept = (set_fd_udp_port-size s.fd_udp_port k.socket dest size).at ports e in
          Ensures-bind (send_raw (record s { fd_udp_port = ports; maxfd = k.socket }) n) _ λ r er.
            Ensures-some (behind (open_fake (fd_of k.socket) bound.binds ∷ []) r) (
              (send_raw-KeepsTable (record s { fd_udp_port = ports; maxfd = k.socket }) n kept).at r
                er)

-- A UDP packet does not end the loop, and the table keeps its size.
handle_udp-goes_on :
    (k : Sockets) (s : State) (d : Bytes)
    → length s.fd_udp_port ≡ fd_setsize
    → IsUdpPacket d
    → Ensures (λ r. (r.0 ≡ false) × KeepsTable (r.1, r.2)) (handle_udp k s (some d))
unfolding handle_udp handle_packet recv_into
handle_udp-goes_on k s d size udp =
    let whole : take buflen d ≡ d = take-all buflen d udp.short in
    let long : 9 < length d = get_elem?-lt d 9 udp.protocol in
    let not_exit : (length d == 4) ≡ false = ==-of_lt (length d) 4 (omega arith) in
    let filled : (length d == 0) ≡ false = ==-of_lt (length d) 0 (omega arith) in
    let s' : State = record s { buffer = d ++ drop (length d) s.buffer } in
    rw (whole, not_exit, filled, get_elem?-append d (drop (length d) s.buffer) 9 udp.protocol)
      (Ensures-bind (open_and_send k s' (length d)) _ λ r er.
        Ensures-some (false, r.0, r.1)
          (refl, (open_and_send-KeepsTable k s' (length d) size).at r er))

-- A turn in which `select` reports the tunnel's socket only, a UDP packet is read, and `socket`
-- gives `fd`.
pub record DeliversUdp (cfg : Config) (fd : ℕ) (k : Kernel) : Type 0 where
  pub packet : Bytes
  pub is_packet : IsUdpPacket packet
  pub datagram_is : k.datagram ≡ some packet
  pub selected : (nfds : ℤ) (set : FdSet) → is_neg (k.select nfds set).0 ≡ false
  pub no_frame : (nfds : ℤ) (set : FdSet) → (k.select nfds set).1 cfg.sock_raw_recv ≡ false
  pub ready : (nfds : ℤ) (set : FdSet) → (k.select nfds set).1 cfg.sock_udp ≡ true
  pub socket_is : k.sockets.socket ≡ pos fd

-- One turn after the other, with the next descriptor each time: nothing is closed, and `socket`
-- gives the lowest that is free.
abbrev pub AllDeliverUdp : Config → ℕ → List Kernel → Type 0
AllDeliverUdp cfg fd [] = Unit
AllDeliverUdp cfg fd (k ∷ ks) = DeliversUdp cfg fd k × AllDeliverUdp cfg (suc fd) ks

abbrev GoesOn : Turn → Type 0
GoesOn (goes_on s out) = length s.fd_udp_port ≡ fd_setsize
GoesOn _ = ⊥

module _ (cfg : Config) (s : State) (fd : ℕ) (k : Kernel) (size : length s.fd_udp_port ≡ fd_setsize)
    (u : DeliversUdp cfg fd k) where
  abbrev after_select : State
  after_select = record s { rset = (k.select (next_fd s.maxfd) (watched cfg s)).1 }

  turn-GoesOn : Ensures GoesOn (turn cfg s k)
  unfolding turn when_ready drain_fake
  turn-GoesOn =
      rw
        (
          u.selected (next_fd s.maxfd) (watched cfg s),
          u.no_frame (next_fd s.maxfd) (watched cfg s),
          u.ready (next_fd s.maxfd) (watched cfg s),
          u.datagram_is,
        )
        (Ensures-bind (handle_udp k.sockets after_select (some u.packet)) _ λ r er.
          let kept =
            (handle_udp-goes_on k.sockets after_select u.packet size u.is_packet).at r er in
          Ensures-some _ (rw kept.0 kept.1))

  turn-outside : fd_setsize ≤ fd → turn cfg s k ≡ none
  unfolding turn when_ready
  turn-outside h =
      rw
        (
          u.selected (next_fd s.maxfd) (watched cfg s),
          u.no_frame (next_fd s.maxfd) (watched cfg s),
          u.ready (next_fd s.maxfd) (watched cfg s),
          u.datagram_is,
        )
        (rw
          (handle_udp-outside k.sockets after_select u.packet size u.is_packet (rw u.socket_is h)))

after_turn-none :
    (rest : State → Option Run) (t : Turn)
    → ((s : State) → length s.fd_udp_port ≡ fd_setsize → rest s ≡ none)
    → GoesOn t
    → after_turn rest t ≡ none
after_turn-none rest (goes_on s out) h g = rw (h s g)
after_turn-none rest (finished s out) h g = absurd g
after_turn-none rest select_failed h g = absurd g

-- If each UDP packet gets the next descriptor, starting with `fd`, the packet that reaches
-- descriptor FD_SETSIZE makes the proxy write outside of `fd_udp_port`: no run of so many packets
-- is defined.
pub run-exhausted :
    (cfg : Config) (s : State) (fd : ℕ) (ks : List Kernel)
    → length s.fd_udp_port ≡ fd_setsize
    → fd ≤ fd_setsize
    → AllDeliverUdp cfg fd ks
    → fd_setsize < fd + length ks
    → run cfg s ks ≡ none
unfolding run
run-exhausted cfg s fd [] size h u many = absurd (omega arith)
run-exhausted cfg s fd (k ∷ ks) size h u many = elim (Bool-cases (leb fd_setsize fd)) [
  | inl full ↦ rw (turn-outside cfg s fd k size u.0 (ground arith))
  | inr room ↦ elim (Option-cases (turn cfg s k)) [
    | inl e ↦ rw e
    | inr (t, e) ↦ rw e (
        after_turn-none (λ s'. run cfg s' ks) t
          (λ s' size'. run-exhausted cfg s' (suc fd) ks size' (ground arith) u.1 (omega arith))
          ((turn-GoesOn cfg s fd k size u.0).at t e))
  ]
]
