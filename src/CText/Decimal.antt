-- ===== src/CText/Decimal.antt =====
-- Numbers as `printf` prints them with `%d` and `sscanf` or `atoi` reads them.
use matador.Base.{
  ℕ, zero, suc, ◌+◌, ◌-◌, ◌*◌, ◌/◌, ◌%◌, ◌^◌, ◌≤◌, ◌<◌, ◌≡◌, refl, ap, ◌∙◌, arith, true, false,
  Bool-cases, inl, inr, [], ◌∷◌, ◌++◌, length, ltb,
}
use native.Mathlib.Nat.{pow-suc}
use matador.Base.Int.{pos}
use matador.Memory.{Bytes}
use matador.CText.{is_digit, dec_onto, dec, digits_value, strtol, atoi, clamp_long}

-- What follows a number and is no part of it.
abbrev pub EndsNumber : Bytes → Type 0
EndsNumber [] = Unit
EndsNumber (c ∷ _) = is_digit c ≡ false

digits_value-ends : (v : ℕ) (rest : Bytes) → EndsNumber rest → digits_value v rest ≡ v
unfolding digits_value
digits_value-ends v [] h = refl
digits_value-ends v (c ∷ rest) h = rw h

digits_value-digit :
    (v d : ℕ) (rest : Bytes)
    → d < 10
    → digits_value v ((48 + d) ∷ rest) ≡ digits_value (v * 10 + d) rest
unfolding digits_value
digits_value-digit v d rest h =
    let yes_digit : is_digit (48 + d) ≡ true = ground arith in
    rw yes_digit (ap (λ n. digits_value n rest) (omega arith))

digits_value-dec_onto :
    (fuel n : ℕ) (out rest : Bytes)
    → n < fuel
    → digits_value 0 (dec_onto fuel n out ++ rest) ≡ digits_value n (out ++ rest)
unfolding dec_onto
digits_value-dec_onto zero n out rest h = absurd (omega arith)
digits_value-dec_onto (suc fuel) n out rest h = elim (Bool-cases (ltb n 10)) [
  | inl small ↦ rw small (
      digits_value-digit 0 (n % 10) (out ++ rest) (omega arith)
      ∙ ap (λ m. digits_value m (out ++ rest)) (ground arith))
  | inr large ↦ rw large (
      digits_value-dec_onto fuel (n / 10) ((48 + n % 10) ∷ out) rest (ground arith)
      ∙ digits_value-digit (n / 10) (n % 10) (out ++ rest) (omega arith)
      ∙ ap (λ m. digits_value m (out ++ rest)) (omega arith))
]

pub digits_value-dec : (n : ℕ) (rest : Bytes) → EndsNumber rest → digits_value 0 (dec n ++ rest) ≡ n
unfolding dec
digits_value-dec n rest h =
    digits_value-dec_onto (suc n) n [] rest (omega arith) ∙ digits_value-ends n rest h

-- A printed number begins with a digit.
dec_onto-head :
    (fuel n : ℕ) (out : Bytes)
    → n < fuel
    → (d : ℕ) × (s : Bytes) × (dec_onto fuel n out ≡ d ∷ s) × (is_digit d ≡ true)
unfolding dec_onto
dec_onto-head zero n out h = absurd (omega arith)
dec_onto-head (suc fuel) n out h = elim (Bool-cases (ltb n 10)) [
  | inl small ↦ (48 + n % 10, out, rw small, ground arith)
  | inr large ↦ rw large (dec_onto-head fuel (n / 10) ((48 + n % 10) ∷ out) (ground arith))
]

strtol-digit :
    (d : ℕ) (s : Bytes)
    → is_digit d ≡ true
    → strtol (d ∷ s) ≡ pos (clamp_long (2 ^ 63 - 1) (digits_value 0 (d ∷ s)))
unfolding strtol
strtol-digit d s h = ground arith

pub dec-head : (n : ℕ) → (d : ℕ) × (s : Bytes) × (dec n ≡ d ∷ s) × (is_digit d ≡ true)
unfolding dec
dec-head n = dec_onto-head (suc n) n [] (omega arith)

-- `strtol` reads back what `%d` prints, whatever stands behind it that is no digit.
pub strtol-dec :
    (n : ℕ) (rest : Bytes) → n < 2 ^ 63 → EndsNumber rest → strtol (dec n ++ rest) ≡ pos n
strtol-dec n rest small h =
    let (d, s, e, digit) = dec-head n in
    let value : digits_value 0 (d ∷ (s ++ rest)) ≡ n = rw e at (digits_value-dec n rest h) in
    rw e (strtol-digit d (s ++ rest) digit ∙ rw value (ground arith))

pub atoi-dec : (n : ℕ) (rest : Bytes) → n < 2 ^ 31 → EndsNumber rest → atoi (dec n ++ rest) ≡ pos n
unfolding atoi
atoi-dec n rest small h = rw (strtol-dec n rest (omega arith) h) (ground arith)

-- A printed number holds digits only.
abbrev pub AllDigits : Bytes → Type 0
AllDigits [] = Unit
AllDigits (c ∷ s) = (is_digit c ≡ true) × AllDigits s

dec_onto-AllDigits : (fuel n : ℕ) (out : Bytes) → AllDigits out → AllDigits (dec_onto fuel n out)
unfolding dec_onto
dec_onto-AllDigits zero n out h = h
dec_onto-AllDigits (suc fuel) n out h = elim (Bool-cases (ltb n 10)) [
  | inl small ↦ rw small (ground arith, h)
  | inr large ↦ rw large (dec_onto-AllDigits fuel (n / 10) _ (ground arith, h))
]

pub dec-AllDigits : (n : ℕ) → AllDigits (dec n)
unfolding dec
dec-AllDigits n = dec_onto-AllDigits (suc n) n [] tt

-- Lengths: a number below 10^k has at most k digits.
dec_onto-1 : (fuel n : ℕ) (out : Bytes) → n < 10 → length (dec_onto fuel n out) ≤ 1 + length out
unfolding dec_onto
dec_onto-1 zero n out h = omega arith
dec_onto-1 (suc fuel) n out h = ground arith

module _ (bound k : ℕ)
    (shorter : (fuel n : ℕ) (out : Bytes)
      → n < bound
      → length (dec_onto fuel n out) ≤ k + length out) where
  dec_onto-more :
      (fuel n : ℕ) (out : Bytes)
      → n < 10 * bound
      → length (dec_onto fuel n out) ≤ suc k + length out
  unfolding dec_onto
  dec_onto-more zero n out h = omega arith
  dec_onto-more (suc fuel) n out h = elim (Bool-cases (ltb n 10)) [
    | inl small ↦ rw small (omega arith)
    | inr large ↦ rw large (omega (arith, shorter fuel (n / 10) ((48 + n % 10) ∷ out)))
  ]

dec_onto-3 : (fuel n : ℕ) (out : Bytes) → n < 1000 → length (dec_onto fuel n out) ≤ 3 + length out
dec_onto-3 = dec_onto-more 100 2 (dec_onto-more 10 1 dec_onto-1)

pub length-dec_byte : (n : ℕ) → n < 1000 → length (dec n) ≤ 3
unfolding dec
length-dec_byte n h = dec_onto-3 (suc n) n [] h

pub length-dec_port : (n : ℕ) → n < 100000 → length (dec n) ≤ 5
unfolding dec
length-dec_port n h = dec_onto-more 10000 4 (dec_onto-more 1000 3 dec_onto-3) (suc n) n [] h

-- A number below 10^(k + 1) has at most k + 1 digits, and any other has more.
dec_onto-le :
    (k fuel n : ℕ) (out : Bytes)
    → n < 10 ^ suc k
    → length (dec_onto fuel n out) ≤ suc k + length out
dec_onto-le zero fuel n out h = dec_onto-1 fuel n out (omega arith)
dec_onto-le (suc k) fuel n out h =
    dec_onto-more (10 ^ suc k) (suc k) (dec_onto-le k) fuel n out
      (omega (arith, pow-suc 10 (suc k)))

pub length-dec-le : (k n : ℕ) → n < 10 ^ suc k → length (dec n) ≤ suc k
unfolding dec
length-dec-le k n h = omega (arith, dec_onto-le k (suc n) n [] h)

pow_pos : (k : ℕ) → 0 < 10 ^ k
pow_pos zero = omega arith
pow_pos (suc k) = omega (arith, pow-suc 10 k, pow_pos k)

dec_onto-longer : (fuel n : ℕ) (out : Bytes) → length out ≤ length (dec_onto fuel n out)
unfolding dec_onto
dec_onto-longer zero n out = omega arith
dec_onto-longer (suc fuel) n out = elim (Bool-cases (ltb n 10)) [
  | inl small ↦ rw small (omega arith)
  | inr large ↦ rw large (omega (arith, dec_onto-longer fuel (n / 10) ((48 + n % 10) ∷ out)))
]

dec_onto-gt :
    (k fuel n : ℕ) (out : Bytes)
    → n < fuel
    → 10 ^ k ≤ n
    → k + length out < length (dec_onto fuel n out)
unfolding dec_onto
dec_onto-gt k zero n out enough h = absurd (omega arith)
dec_onto-gt zero (suc fuel) n out enough h = elim (Bool-cases (ltb n 10)) [
  | inl small ↦ rw small (omega arith)
  | inr large ↦ rw large (omega (arith, dec_onto-longer fuel (n / 10) ((48 + n % 10) ∷ out)))
]
dec_onto-gt (suc k) (suc fuel) n out enough h =
    let power = pow-suc 10 k in
    elim (Bool-cases (ltb n 10)) [
      | inl small ↦ absurd (ground (arith, small, h, power, pow_pos k))
      | inr large ↦ rw large (
          omega (
            arith,
            dec_onto-gt k fuel (n / 10) ((48 + n % 10) ∷ out) (ground arith) (omega (arith, power)),
          ))
    ]

pub length-dec-gt : (k n : ℕ) → 10 ^ k ≤ n → k < length (dec n)
unfolding dec
length-dec-gt k n h = omega (arith, dec_onto-gt k (suc n) n [] (omega arith) h)
