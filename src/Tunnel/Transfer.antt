-- ===== src/Tunnel/Transfer.antt =====
-- What the upload loop transfers.
use matador.Base.{
  ℕ, leb, ◌^◌, zero, suc, ◌+◌, ◌-◌, ◌≡◌, ◌<◌, ◌≤◌, refl, sym, ap, ◌∙◌, arith, false, some, [], ◌∷◌,
  ◌++◌, length, ltb, ◌==◌, take, drop, Runs, Runs-some, Runs-if, length-take, length-drop, take-all,
  ==-of_lt,
}
use native.Mathlib.Nat.{zero-add, suc-add}
use matador.Memory.{Bytes}
use matador.Tunnel.Upload.{Transfer, Uploaded, upload_chunk, upload_loop, upload}

-- `read` of a file: at a position inside it, some of the bytes that follow.
pub record ReadsFile (file : Bytes) (t : Transfer) : Type 0 where
  pub amount : ℕ → ℕ
  pub some_bytes : (total : ℕ) → total < length file → 0 < amount total
  pub reads :
      (total : ℕ)
      → total < length file
      → t.read total ≡ some (take (amount total) (drop total file))
  pub accepted : (chunk : Bytes) → t.write_fails chunk ≡ false

-- What is written is the file up to `total`.
record IsPrefix (file : Bytes) (u : Uploaded) : Type 0 where
  written : u.written ≡ take u.total file
  inside : u.total ≤ length file

take-length-take : (m : ℕ) (xs : Bytes) → take (length (take m xs)) xs ≡ take m xs
take-length-take zero xs = refl
take-length-take (suc m) [] = refl
take-length-take (suc m) (x ∷ xs) = ap (◌∷◌ x) (take-length-take m xs)

-- A chunk behind a prefix makes a longer prefix.
take-chunk :
    (n m : ℕ) (xs : Bytes)
    → take n xs ++ take m (drop n xs) ≡ take (n + length (take m (drop n xs))) xs
take-chunk zero m xs = rw (zero-add (length (take m xs))) (sym (take-length-take m xs))
take-chunk (suc n) zero [] = rw (suc-add n 0)
take-chunk (suc n) (suc m) [] = rw (suc-add n 0)
take-chunk (suc n) m (x ∷ xs) =
    rw (suc-add n (length (take m (drop n xs)))) (ap (◌∷◌ x) (take-chunk n m xs))

IsPrefix-next :
    (file : Bytes) (m : ℕ) (u : Uploaded)
    → IsPrefix file u
    → let chunk = take m (drop u.total file) in
      IsPrefix file (record { total = u.total + length chunk; written = u.written ++ chunk })
IsPrefix-next file m u p = record {
  written = rw p.written (take-chunk u.total m file);
  inside = omega (arith, p.inside, length-take m (drop u.total file), length-drop u.total file);
}

abbrev Uploads : Bytes → Uploaded → Type 0
Uploads file u = (u.written ≡ file) × (u.total ≡ length file)

upload_loop-file :
    (fuel : ℕ) (file : Bytes) (t : Transfer) (u : Uploaded)
    → length file < 2 ^ 31
    → ReadsFile file t
    → length file - u.total < fuel
    → u.total < length file
    → IsPrefix file u
    → Runs (Uploads file) (upload_loop fuel (length file) t u)
unfolding upload_loop upload_chunk
upload_loop-file zero file t u int r h more p = absurd (omega arith)
upload_loop-file (suc fuel) file t u int r h more p =
    let m = r.amount u.total in
    let chunk = take m (drop u.total file) in
    let u' : Uploaded = record { total = u.total + length chunk; written = u.written ++ chunk } in
    let p' : IsPrefix file u' = IsPrefix-next file m u p in
    let filled : 0 < length chunk = omega (
      arith,
      r.some_bytes u.total more,
      length-take m (drop u.total file),
      length-drop u.total file,
    ) in
    let nonempty : (length chunk == 0) ≡ false = ==-of_lt (length chunk) 0 filled in
    let no_overflow : leb (2 ^ 31) u'.total ≡ false = ground (arith, p'.inside, int) in
    rw (r.reads u.total more, nonempty, r.accepted chunk, no_overflow)
      (Runs-if (ltb u'.total (length file)) _ _
        (λ again. upload_loop-file fuel file t u' int r (omega (arith, filled)) (ground arith) p')
        λ done.
          let all : u'.total ≡ length file = ground (arith, p'.inside) in
          Runs-some u' (p'.written ∙ take-all u'.total file (omega arith), all))

-- If `read` delivers the bytes of a file that is not empty and smaller than 2 GiB, in pieces of any
-- size, and every write is accepted, then what is written is the file, and `total` does not overflow.
pub upload-file :
    (file : Bytes) (t : Transfer)
    → 0 < length file
    → length file < 2 ^ 31
    → ReadsFile file t
    → Runs (λ u. (u.written ≡ file) × (u.total ≡ length file)) (upload (length file) t)
unfolding upload
upload-file file t h int r =
    upload_loop-file (suc (length file)) file t _ int r (omega arith) h
      (record { written = refl; inside = omega arith })
