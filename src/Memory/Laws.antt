-- ===== src/Memory/Laws.antt =====
-- Laws of reads and writes in a buffer.
use matador.Base.{
  ℕ, zero, suc, ◌+◌, ◌≤◌, ◌<◌, ◌≡◌, ap, arith, some, List, [], ◌∷◌, ◌++◌, true, take, drop, length,
  length-append, length-take, length-drop, leb, take-append, drop-append, ◌∙◌, Runs, Runs-some,
}
use matador.Memory.{Bytes, be16, be32, head16, head32, be16_at, be32_at, write_at, recv_into}

module _ {ℓ} {A : Type ℓ} where
  pub drop-append_add : (pre xs : List A) (k : ℕ) → drop (length pre + k) (pre ++ xs) ≡ drop k xs
  drop-append_add [] xs k = ap (λ n. drop n xs) (omega arith)
  drop-append_add (x ∷ pre) xs k =
      let e : suc (length pre) + k ≡ suc (length pre + k) = omega arith in
      rw e (drop-append_add pre xs k)

pub be16_at-Runs : (buf : Bytes) (i : ℕ) → i + 2 ≤ length buf → Runs (λ _. Unit {0}) (be16_at buf i)
unfolding be16_at
be16_at-Runs [] i h = absurd (omega arith)
be16_at-Runs (a ∷ []) zero h = absurd (omega arith)
be16_at-Runs (a ∷ b ∷ buf) zero h = Runs-some _ tt
be16_at-Runs (a ∷ buf) (suc i) h = be16_at-Runs buf i (omega arith)

pub be32_at-Runs : (buf : Bytes) (i : ℕ) → i + 4 ≤ length buf → Runs (λ _. Unit {0}) (be32_at buf i)
unfolding be32_at
be32_at-Runs [] i h = absurd (omega arith)
be32_at-Runs (a ∷ []) zero h = absurd (omega arith)
be32_at-Runs (a ∷ b ∷ []) zero h = absurd (omega arith)
be32_at-Runs (a ∷ b ∷ c ∷ []) zero h = absurd (omega arith)
be32_at-Runs (a ∷ b ∷ c ∷ d ∷ buf) zero h = Runs-some _ tt
be32_at-Runs (a ∷ buf) (suc i) h = be32_at-Runs buf i (omega arith)

-- A write inside the buffer succeeds and keeps its length.
pub write_at-Runs :
    (buf : Bytes) (i : ℕ) (bytes : Bytes)
    → i + length bytes ≤ length buf
    → Runs (λ buf'. length buf' ≡ length buf) (write_at buf i bytes)
unfolding write_at
write_at-Runs buf i bytes h = record {
  value = take i buf ++ (bytes ++ drop (i + length bytes) buf);
  runs = ground arith;
  holds = omega (
    arith,
    length-append (take i buf) (bytes ++ drop (i + length bytes) buf),
    length-append bytes (drop (i + length bytes) buf),
    length-take i buf,
    length-drop (i + length bytes) buf,
  );
}

-- A write behind a prefix replaces what stands there.
pub write_at-append :
    (pre old new post : Bytes)
    → length old ≡ length new
    → write_at (pre ++ (old ++ post)) (length pre) new ≡ some (pre ++ (new ++ post))
unfolding write_at
write_at-append pre old new post h =
    let fits : leb (length pre + length new) (length (pre ++ (old ++ post))) ≡ true =
      ground (arith, length-append pre (old ++ post), length-append old post) in
    let rest : drop (length pre + length new) (pre ++ (old ++ post)) ≡ post =
      drop-append_add pre (old ++ post) (length new) ∙ rw (← h) (drop-append old post) in
    rw (fits, take-append pre (old ++ post), rest)

pub head16-be16 : (n : ℕ) (rest : Bytes) → n < 65536 → head16 (be16 n ++ rest) ≡ some n
head16-be16 n rest h = ap some (omega arith)

pub head32-be32 : (n : ℕ) (rest : Bytes) → n < 4294967296 → head32 (be32 n ++ rest) ≡ some n
head32-be32 n rest h = ap some (omega arith)

pub length-recv_into :
    (buf : Bytes) (size : ℕ) (datagram : Bytes)
    → size ≤ length buf
    → length (recv_into buf size datagram) ≡ length buf
unfolding recv_into
length-recv_into buf size datagram h = omega (
  arith,
  length-append (take size datagram) (drop (length (take size datagram)) buf),
  length-take size datagram,
  length-drop (length (take size datagram)) buf,
)

-- A field of a prefix reads the same with more bytes behind it.
pub be16_at-prefix :
    (xs ys : Bytes) (i : ℕ) {n : ℕ} → be16_at xs i ≡ some n → be16_at (xs ++ ys) i ≡ some n
unfolding be16_at
be16_at-prefix [] ys zero e = cc
be16_at-prefix [] ys (suc i) e = cc
be16_at-prefix (a ∷ []) ys zero e = cc
be16_at-prefix (a ∷ b ∷ xs) ys zero e = e
be16_at-prefix (a ∷ xs) ys (suc i) e = be16_at-prefix xs ys i e
