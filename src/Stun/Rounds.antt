-- ===== src/Stun/Rounds.antt =====
-- One round of the retry loop of `stun_request`, and the request that it sends.
use matador.Base.{
  ℕ, ◌+◌, ◌≤◌, ◌<◌, ◌≡◌, refl, arith, true, false, Option, none, some, List, [], ◌∷◌, ◌++◌, length,
  length-append, take, drop, ◌==◌, ◌>>=◌, Runs, Runs-some, Runs-bind, replicate, length-take,
  length-drop, take-append, take-all, take-append-drop, ap, Runs-if, inl, inr, append_assoc, ◌⊎◌,
}
use mathlib.Core.Path.{subst}
use matador.Base.Int.{pos, minus_one, is_neg}
use matador.Memory.{Bytes, be16, be16_at, recv_into}
use matador.Memory.Laws.{write_at-append, length-recv_into}
use matador.Socket.{SockaddrIn, zero_addr}
use matador.Stun.{sizeof_stun_header, stun_get_mapped, stun_handle_packet}
use matador.Stun.Bounds.{stun_handle_packet-Runs}
use matador.Stun.Message.{Attr, IsAttrs, IsTail, encode, mapped_address}
use matador.Stun.Parse.{stun_handle_packet-encode}
use matador.Stun.Request.{
  Round, Sent, stun_send, stun_req_id, build_request, Outcome, retry, stop, answered, receive,
  not_ready, round, Requested, after_round, stun_bindreq,
}

-- The request of RFC 3489 that asks for the mapped address: a header with no attributes.
abbrev pub binding_request : Bytes → Bytes
binding_request id = be16 stun_bindreq ++ (be16 0 ++ id)

-- What one round sends.
abbrev pub the_request : SockaddrIn → Bytes → Sent
the_request dst id = record { dst = dst; datagram = binding_request id }

-- `reqdata` behind the header.
pub build_request_lem :
    (a b c d : ℕ) (old id rest : Bytes)
    → length old ≡ length id
    → build_request id (a ∷ b ∷ c ∷ d ∷ (old ++ rest)) ≡ some (binding_request id ++ rest)
unfolding build_request stun_req_id
build_request_lem a b c d old id rest size = rw (
  write_at-append (a ∷ b ∷ c ∷ d ∷ []) old id rest size,
  write_at-append [] (a ∷ b ∷ []) (0 ∷ 0 ∷ []) (c ∷ d ∷ (id ++ rest)) refl,
  write_at-append (0 ∷ 0 ∷ []) (c ∷ d ∷ []) (0 ∷ 0 ∷ []) (id ++ rest) refl,
  write_at-append (0 ∷ 0 ∷ []) (0 ∷ 0 ∷ []) (0 ∷ 0 ∷ []) (id ++ rest) refl,
  write_at-append [] (0 ∷ 0 ∷ []) (be16 stun_bindreq) (0 ∷ 0 ∷ (id ++ rest)) refl,
)

-- Whatever was in `reqdata`, the header is the request, and the rest of the buffer stays.
pub build_request_junk :
    (id junk : Bytes)
    → length id ≡ 16
    → 20 ≤ length junk
    → build_request id junk ≡ some (binding_request id ++ drop 20 junk)
build_request_junk id (a ∷ b ∷ c ∷ d ∷ junk) size h =
    let e = take-append-drop 16 junk in
    subst (λ m. build_request id (a ∷ b ∷ c ∷ d ∷ m) ≡ some (binding_request id ++ drop 16 junk)) e
      (build_request_lem a b c d (take 16 junk) id (drop 16 junk)
        (omega (arith, length-take 16 junk)))
build_request_junk id _ size h = absurd (omega arith)

pub stun_send_lem :
    (dst : SockaddrIn) (id rest : Bytes)
    → length id ≡ 16
    → stun_send dst (binding_request id ++ rest) ≡ some (the_request dst id)
unfolding stun_send be16_at
stun_send_lem dst id rest size =
    ap (λ (m : Bytes). some (record { dst = dst; datagram = 0 ∷ 1 ∷ 0 ∷ 0 ∷ m }))
      (rw (← size) (take-append id rest))

-- A round that ends in `continue`.
pub data IsFailed (r : Round) : Type 0 where
  send_failed : is_neg r.sent ≡ true → IsFailed r
  timed_out : not_ready r.selected ≡ true → IsFailed r
  read_failed : r.received ≡ none → IsFailed r
  empty_reply : r.received ≡ some [] → IsFailed r

pub round-IsFailed : (buf : Bytes) (r : Round) → IsFailed r → round true buf r ≡ some retry
unfolding round receive
round-IsFailed buf r (send_failed e) = rw e
round-IsFailed buf r (timed_out e) = rw e (ground arith)
round-IsFailed buf r (read_failed e) = rw e (ground arith)
round-IsFailed buf r (empty_reply e) = rw e (ground arith)

-- A round in which a datagram is read.
pub record IsAnswered (r : Round) (datagram : Bytes) : Type 0 where
  pub sent : is_neg r.sent ≡ false
  pub ready : not_ready r.selected ≡ false
  pub received : r.received ≡ some datagram
  pub size : (0 < length datagram) × (length datagram ≤ 1023)

pub round-IsAnswered :
    (buf : Bytes) (r : Round) (datagram : Bytes)
    → IsAnswered r datagram
    → round true buf r ≡ (
        stun_handle_packet
          (recv_into buf 1023 datagram)
          (length datagram)
          (some stun_get_mapped)
          zero_addr
        >>= λ h. some (answered h.arg))
unfolding round receive
round-IsAnswered buf r datagram a =
    let whole : take 1023 datagram ≡ datagram = take-all 1023 datagram a.size.1 in
    let some_bytes : (length datagram == 0) ≡ false = ground arith in
    rw (a.sent, a.ready, a.received) (rw (whole, some_bytes))

pub round-null :
    (buf : Bytes) (r : Round) → Runs (λ o. (o ≡ retry) ⊎ (o ≡ stop)) (round false buf r)
unfolding round
round-null buf r =
    Runs-if (is_neg r.sent) _ _ (λ _. Runs-some _ (inl refl)) (λ _. Runs-some _ (inr refl))

pub after_round-null :
    (again : Option Requested) (o : Outcome)
    → (o ≡ retry) ⊎ (o ≡ stop)
    → Runs (λ r. (r.ret ≡ minus_one) × (r.answer ≡ none)) again
    → Runs (λ r. (r.ret ≡ minus_one) × (r.answer ≡ none)) (after_round again none o)
after_round-null again retry p h = h
after_round-null again stop p h = Runs-some _ (refl, refl)
after_round-null again (answered a) p h = absurd (ground arith)

pub receive-Runs :
    (buf : Bytes) (received : Option Bytes)
    → length buf ≡ 1024
    → Runs (λ _. Unit {0}) (receive buf received)
unfolding receive
receive-Runs buf none room = Runs-some _ tt
receive-Runs buf (some datagram) room =
    Runs-if (length (take 1023 datagram) == 0) _ _ (λ _. Runs-some _ tt)
      λ _.
        Runs-bind _
          (stun_handle_packet-Runs (recv_into buf 1023 datagram) (length (take 1023 datagram))
            zero_addr
            (omega (arith, length-take 1023 datagram, length-recv_into buf 1023 datagram)))
          λ h _ _. Runs-some _ tt

pub round-Runs :
    (buf : Bytes) (r : Round) → length buf ≡ 1024 → Runs (λ _. Unit {0}) (round true buf r)
unfolding round
round-Runs buf r room =
    Runs-if (is_neg r.sent) _ _ (λ _. Runs-some _ tt)
      λ _.
        Runs-if (not_ready r.selected) _ _ (λ _. Runs-some _ tt)
          λ _. receive-Runs buf r.received room

-- What the retry loop guarantees of its result.
abbrev pub IsSane : ℕ → SockaddrIn → Sent → Requested → Type 0
IsSane n sa s r =
    (r.sends ≡ replicate (length r.sends) s)
    × (length r.sends ≤ n)
    × ((r.ret ≡ pos 0) ⊎ ((r.ret ≡ minus_one) × (r.answer ≡ some sa)))

pub after_round-Runs :
    (n : ℕ) (sa : SockaddrIn) (s : Sent) (again : Option Requested) (o : Outcome)
    → Runs (IsSane n sa s) again
    → Runs (IsSane n sa s) (after_round again (some sa) o)
after_round-Runs n sa s again retry h = h
after_round-Runs n sa s again stop h = Runs-some _ (refl, omega arith, inr (refl, refl))
after_round-Runs n sa s again (answered a) h = Runs-some _ (refl, omega arith, inl refl)

pub recv_into-encode :
    (buf header attrs tail : Bytes)
    → length (header ++ (attrs ++ tail)) ≤ 1023
    → recv_into buf 1023 (header ++ (attrs ++ tail))
      ≡ header ++ (attrs ++ (tail ++ drop (length (header ++ (attrs ++ tail))) buf))
unfolding recv_into
recv_into-encode buf header attrs tail h =
    rw (take-all 1023 (header ++ (attrs ++ tail)) h) (simp append_assoc)

pub round-encode :
    (buf : Bytes) (r : Round) (header : Bytes) (attrs : List Attr) (tail : Bytes) (x : ℕ)
    → length buf ≡ 1024
    → IsAnswered r (header ++ (encode attrs ++ tail))
    → length header ≡ sizeof_stun_header
    → be16_at header 2 ≡ some x
    → length (encode attrs ++ tail) ≤ x
    → IsAttrs attrs
    → IsTail tail
    → round true buf r ≡ some (answered (mapped_address zero_addr attrs))
round-encode buf r header attrs tail x room got size advertised long ok stuck =
    let d = header ++ (encode attrs ++ tail) in
    let post = drop (length d) buf in
    let sizes : length d ≡ 20 + length (encode attrs ++ tail) =
      omega (arith, length-append header (encode attrs ++ tail)) in
    let r' =
      stun_handle_packet-encode header attrs tail post x (length d) zero_addr size advertised ok
        stuck (omega arith) (omega (arith, length-append (encode attrs) tail))
        (omega (arith, length-drop (length d) buf, got.size.1)) in
    rw
      (
        round-IsAnswered buf r d got,
        recv_into-encode buf header (encode attrs) tail got.size.1,
        r'.runs,
      )
      (ap (λ a. some (answered a)) r'.holds.1)
