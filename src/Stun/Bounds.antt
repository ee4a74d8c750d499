-- ===== src/Stun/Bounds.antt =====
-- The reads of `stun_handle_packet` in its buffer, and its loop.
use matador.Base.{
  ℕ, zero, suc, ◌+◌, ◌-◌, ◌≤◌, ◌<◌, ◌≡◌, refl, arith, Option, some, [], ◌∷◌, length, ltb, ◌==◌, inl,
  inr, Bool-cases, Runs, Runs-some, Runs-bind, Runs-if, not, true, ◌||◌, ◌∙◌, if◌then◌else◌,
}
use matador.Memory.{Bytes, be16_at}
use matador.Memory.Laws.{be16_at-Runs, be32_at-Runs, write_at-Runs}
use matador.Base.Int.{pos, minus_one}
use matador.Socket.{SockaddrIn}
use matador.Stun.{
  StunCb, stun_process_attr, stun_get_mapped, call_cb, Cursor, Step, next_round, break_loop,
  continue_loop, attr_step, attr_loop, clamp_len, Handled, stun_handle_packet, sizeof_stun_header,
  stun_ignore,
}

-- What the loop keeps: the bytes that are left lie in the buffer, with room for one more.
record IsInside (size : ℕ) (w : Cursor) : Type 0 where
  room : w.at + w.left + 1 ≤ size
  size_is : length w.buf ≡ size

abbrev StepIsInside : ℕ → ℕ → Step → Type 0
StepIsInside size left (break_loop w) = IsInside size w
StepIsInside size left (continue_loop w) = IsInside size w × (w.left < left)

-- The callback reads no more than its attribute: the address only where the length is 8.
stun_get_mapped-Runs :
    (buf : Bytes) (at left len : ℕ) (sa : SockaddrIn)
    → be16_at buf (at + 2) ≡ some len
    → len + 4 ≤ left
    → at + left ≤ length buf
    → Runs (λ _. Unit {0}) (stun_get_mapped buf at sa)
unfolding stun_get_mapped
stun_get_mapped-Runs buf at left len sa e fits room =
    Runs-bind _ (be16_at-Runs buf at (omega arith)) λ kind _ _.
      Runs-bind _ (be16_at-Runs buf (at + 2) (omega arith)) λ len' e' _.
        Runs-if (not (kind == 1) || not (len' == 8)) _ _ (λ _. Runs-some _ tt)
          λ same.
            let len_is : len' ≡ len = cc in
            Runs-bind _ (be16_at-Runs buf (at + 4 + 2) (ground arith)) λ port _ _.
              Runs-bind _ (be32_at-Runs buf (at + 4 + 4) (ground arith)) λ addr _ _. Runs-some _ tt

-- A callback that reads only inside the attribute that it is given.
abbrev pub IsTame : Option StunCb → Type 0
IsTame cb =
    (buf : Bytes) (at left len : ℕ) (sa : SockaddrIn)
    → be16_at buf (at + 2) ≡ some len
    → len + 4 ≤ left
    → at + left ≤ length buf
    → Runs (λ _. Unit {0}) (call_cb cb buf at sa)

pub stun_get_mapped-IsTame : IsTame (some stun_get_mapped)
unfolding call_cb
stun_get_mapped-IsTame buf at left len sa e fits room =
    Runs-bind _ (stun_get_mapped-Runs buf at left len sa e fits room) λ r _ _. Runs-some _ tt

attr_step-Runs :
    (cb : Option StunCb) (size : ℕ) (w : Cursor)
    → IsTame cb
    → IsInside size w
    → Runs (StepIsInside size w.left) (attr_step cb w)
unfolding attr_step stun_process_attr
attr_step-Runs cb size w tame inside =
    Runs-if (w.left == 0) _ _ (λ _. Runs-some _ inside)
      λ nonempty.
        Runs-if (ltb w.left 4) _ _ (λ _. Runs-some _ inside)
          λ whole. Runs-bind _ (be16_at-Runs w.buf (w.at + 2) (ground arith)) λ len e _.
            Runs-if (ltb w.left (len + 4)) _ _ (λ _. Runs-some _ inside)
              λ fits.
                Runs-bind _ (tame w.buf w.at w.left len w.arg e (ground arith) (ground arith))
                  λ arg _ _. Runs-bind _ (be16_at-Runs w.buf w.at (ground arith)) λ kind _ _.
                    Runs-if (not ((stun_process_attr w.st kind).1 == 0)) _ _
                      (λ _. Runs-some _ (record { room = inside.room; size_is = inside.size_is }))
                      λ _.
                        Runs-bind _ (write_at-Runs w.buf w.at (0 ∷ 0 ∷ []) (ground arith))
                          λ buf' _ same. Runs-some _ (
                            record { room = ground arith; size_is = same ∙ inside.size_is },
                            ground arith,
                          )

next_round-Runs :
    (size left : ℕ) (again : Cursor → Option Cursor)
    → ((w : Cursor) → IsInside size w → w.left < left → Runs (IsInside size) (again w))
    → (s : Step) → StepIsInside size left s
    → Runs (IsInside size) (next_round again s)
next_round-Runs size left again ends (break_loop w) p = Runs-some w p
next_round-Runs size left again ends (continue_loop w) p = ends w p.0 p.1

-- With more fuel than bytes left the loop ends, inside the buffer.
attr_loop-Runs :
    (fuel size : ℕ) (cb : Option StunCb) (w : Cursor)
    → IsTame cb
    → IsInside size w
    → w.left < fuel
    → Runs (IsInside size) (attr_loop fuel cb w)
unfolding attr_loop
attr_loop-Runs zero size cb w tame inside h = absurd (omega arith)
attr_loop-Runs (suc fuel) size cb w tame inside h =
    Runs-bind _ (attr_step-Runs cb size w tame inside) λ s _ p.
      next_round-Runs size w.left (attr_loop fuel cb)
        (λ w' i l. attr_loop-Runs fuel size cb w' tame i (omega arith)) s p

-- `stun_handle_packet` neither reads nor writes outside a buffer that has room for one byte behind
-- the message, its loop ends, and the buffer keeps its size. It returns -1 for a message that is
-- shorter than the header, and leaves its bytes and the answer alone then, and 0 otherwise.
pub stun_handle_packet-Runs :
    (buf : Bytes) (len : ℕ) (arg : SockaddrIn)
    → len + 1 ≤ length buf
    → Runs
        (λ (r : Handled).
          (length r.buf ≡ length buf)
          × (r.ret ≡ (if ltb len sizeof_stun_header then minus_one else pos stun_ignore))
          × (ltb len sizeof_stun_header ≡ true → (r.buf ≡ buf) × (r.arg ≡ arg)))
        (stun_handle_packet buf len (some stun_get_mapped) arg)
unfolding stun_handle_packet clamp_len
stun_handle_packet-Runs buf len arg h = elim (Bool-cases (ltb len 20)) [
  | inl runt ↦ rw runt (Runs-some _ (refl, refl, λ _. (refl, refl)))
  | inr long ↦ rw long (
      Runs-bind _ (be16_at-Runs buf 2 (ground arith)) λ x _ _.
        Runs-bind _
          (attr_loop-Runs (suc (clamp_len x (len - 20))) (length buf) _ _ stun_get_mapped-IsTame
            (record { room = ground arith; size_is = refl }) (omega arith))
          λ w _ inside.
            Runs-bind _ (write_at-Runs w.buf w.at (0 ∷ []) (ground arith)) λ terminated _ same.
              Runs-some _ (same ∙ inside.size_is, refl, λ h. absurd (ground (arith, h))))
]
