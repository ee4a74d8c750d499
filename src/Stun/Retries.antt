-- ===== src/Stun/Retries.antt =====
-- The retry loop of `stun_request`: what it sends, when it gives up, and what it answers.
use matador.Base.{
  ℕ, zero, suc, ◌+◌, ◌≤◌, ◌<◌, ◌≡◌, refl, arith, true, none, some, List, ◌∷◌, ◌++◌, length, drop,
  Runs, Runs-some, Runs-bind, replicate, sym, ap, inr, ◌⊎◌,
}
use native.Mathlib.Nat.{add-zero, zero-add}
use mathlib.Core.Path.{subst}
use matador.Base.Int.{pos, minus_one}
use matador.Memory.{Bytes, be16_at}
use matador.Socket.{SockaddrIn, zero_addr}
use matador.Stun.{sizeof_stun_header}
use matador.Stun.Message.{Attr, IsAttrs, IsTail, encode, mapped_address}
use matador.Stun.Request.{Round, answered, round, Requested, retry_loop, stun_request}
use matador.Stun.Rounds.{
  binding_request, the_request, build_request_junk, stun_send_lem, IsFailed, round-IsFailed,
  IsAnswered, round-null, after_round-null, round-Runs, after_round-Runs, round-encode,
}

module _ (dst : SockaddrIn) (id rest buf : Bytes) (kernel : ℕ → Round) (size : length id ≡ 16) where
  abbrev req : Bytes
  req = binding_request id ++ rest

  retry_loop-fails :
      (n i : ℕ) (sa : SockaddrIn)
      → ((j : ℕ) → j < i + n → IsFailed (kernel j))
      → retry_loop n i dst req buf kernel (some sa)
        ≡ some
            (record { ret = minus_one; answer = some sa; sends = replicate n (the_request dst id) })
  unfolding retry_loop
  retry_loop-fails zero i sa f = refl
  retry_loop-fails (suc n) i sa f = rw (
    stun_send_lem dst id rest size,
    round-IsFailed buf (kernel i) (f i (omega arith)),
    retry_loop-fails n (suc i) sa (λ j h. f j (omega arith)),
  )

  retry_loop-answers :
      (k n i : ℕ) (sa answer : SockaddrIn)
      → k < n
      → ((j : ℕ) → j < i + k → IsFailed (kernel j))
      → round true buf (kernel (i + k)) ≡ some (answered answer)
      → retry_loop n i dst req buf kernel (some sa)
        ≡ some (record {
          ret = pos 0;
          answer = some answer;
          sends = replicate (suc k) (the_request dst id);
        })
  unfolding retry_loop
  retry_loop-answers k zero i sa answer h f e = absurd (omega arith)
  retry_loop-answers zero (suc n) i sa answer h f e =
      rw (stun_send_lem dst id rest size, rw (add-zero i) at e)
  retry_loop-answers (suc k) (suc n) i sa answer h f e =
      let e' : round true buf (kernel (suc i + k)) ≡ some (answered answer) =
        subst (λ m. round true buf (kernel m) ≡ some (answered answer)) (omega arith) e in
      rw (
        stun_send_lem dst id rest size,
        round-IsFailed buf (kernel i) (f i (omega arith)),
        retry_loop-answers k n (suc i) sa answer (omega arith) (λ j g. f j (omega arith)) e',
      )

  -- `answer == NULL`: the first datagram that goes out ends the loop, with -1.
  retry_loop-null :
      (n i : ℕ)
      → Runs
          (λ (r : Requested). (r.ret ≡ minus_one) × (r.answer ≡ none))
          (retry_loop n i dst req buf kernel none)
  unfolding retry_loop
  retry_loop-null zero i = Runs-some _ (refl, refl)
  retry_loop-null (suc n) i = rw (stun_send_lem dst id rest size) (
      Runs-bind _ (round-null buf (kernel i)) λ o _ p.
        Runs-bind _
          (after_round-null (retry_loop n (suc i) dst req buf kernel none) o p
            (retry_loop-null n (suc i)))
          λ r _ q. Runs-some _ q)

  retry_loop-Runs :
      (n i : ℕ) (sa : SockaddrIn)
      → length buf ≡ 1024
      → Runs
          (λ (r : Requested).
            (r.sends ≡ replicate (length r.sends) (the_request dst id))
            × (length r.sends ≤ n)
            × ((r.ret ≡ pos 0) ⊎ ((r.ret ≡ minus_one) × (r.answer ≡ some sa))))
          (retry_loop n i dst req buf kernel (some sa))
  unfolding retry_loop
  retry_loop-Runs zero i sa room = Runs-some _ (refl, omega arith, inr (refl, refl))
  retry_loop-Runs (suc n) i sa room = rw (stun_send_lem dst id rest size) (
      Runs-bind _ (round-Runs buf (kernel i) room) λ o _ p.
        Runs-bind _
          (after_round-Runs n sa (the_request dst id)
            (retry_loop n (suc i) dst req buf kernel (some sa)) o
            (retry_loop-Runs n (suc i) sa room))
          λ r _ q. Runs-some _ (ap (◌∷◌ (the_request dst id)) q.0, omega arith, q.2))

module _ (stuncount : ℕ) (dst : SockaddrIn) (id junk buf : Bytes) (kernel : ℕ → Round)
    (id_size : length id ≡ 16) (junk_size : length junk ≡ 1024) (buf_size : length buf ≡ 1024) where
  -- Whatever the kernel answers and the server sends, `stun_request` stays inside its buffers and
  -- returns: it has sent nothing but the binding request, at most `stuncount` times, and if it
  -- returns -1 the answer is untouched.
  pub stun_request-Runs :
      (sa : SockaddrIn)
      → Runs
          (λ (r : Requested).
            (r.sends ≡ replicate (length r.sends) (the_request dst id))
            × (length r.sends ≤ stuncount)
            × ((r.ret ≡ pos 0) ⊎ ((r.ret ≡ minus_one) × (r.answer ≡ some sa))))
          (stun_request stuncount dst id junk buf kernel (some sa))
  unfolding stun_request
  stun_request-Runs sa =
      rw (build_request_junk id junk id_size (omega arith))
        (retry_loop-Runs dst id (drop 20 junk) buf kernel id_size stuncount 0 sa buf_size)

  -- With `answer == NULL` the result is -1, also where a request was sent without an error.
  pub stun_request-null :
      Runs
        (λ (r : Requested). (r.ret ≡ minus_one) × (r.answer ≡ none))
        (stun_request stuncount dst id junk buf kernel none)
  unfolding stun_request
  stun_request-null =
      rw (build_request_junk id junk id_size (omega arith))
        (retry_loop-null dst id (drop 20 junk) buf kernel id_size stuncount 0)

  -- If each of the `stuncount` rounds fails, the request went out `stuncount` times, and the result
  -- is -1 with the answer untouched.
  pub stun_request-fails :
      (sa : SockaddrIn)
      → ((j : ℕ) → j < stuncount → IsFailed (kernel j))
      → stun_request stuncount dst id junk buf kernel (some sa)
        ≡ some (record {
          ret = minus_one;
          answer = some sa;
          sends = replicate stuncount (the_request dst id);
        })
  unfolding stun_request
  stun_request-fails sa f = rw (build_request_junk id junk id_size (omega arith)) (
      retry_loop-fails dst id (drop 20 junk) buf kernel id_size stuncount 0 sa
        (λ j h. f j (omega arith)))

  -- If the rounds before round `k` fail, and round `k` reads a message whose attributes are `attrs`,
  -- then the result is 0 after `k + 1` requests, and the answer is the last mapped address of
  -- `attrs`, or 0.0.0.0:0 where there is none.
  pub stun_request-answers :
      (k x : ℕ) (sa : SockaddrIn) (header : Bytes) (attrs : List Attr) (tail : Bytes)
      → k < stuncount
      → ((j : ℕ) → j < k → IsFailed (kernel j))
      → IsAnswered (kernel k) (header ++ (encode attrs ++ tail))
      → length header ≡ sizeof_stun_header
      → be16_at header 2 ≡ some x
      → length (encode attrs ++ tail) ≤ x
      → IsAttrs attrs
      → IsTail tail
      → stun_request stuncount dst id junk buf kernel (some sa)
        ≡ some (record {
          ret = pos 0;
          answer = some (mapped_address zero_addr attrs);
          sends = replicate (suc k) (the_request dst id);
        })
  unfolding stun_request
  stun_request-answers k x sa header attrs tail h f got size advertised long ok stuck =
      rw (build_request_junk id junk id_size (omega arith)) (
        retry_loop-answers dst id (drop 20 junk) buf kernel id_size k stuncount 0 sa
          (mapped_address zero_addr attrs) h (λ j g. f j (omega arith))
          (subst (λ m. round true buf (kernel m) ≡ some (answered (mapped_address zero_addr attrs)))
            (sym (zero-add k))
            (round-encode buf (kernel k) header attrs tail x buf_size got size advertised long ok
              stuck)))
