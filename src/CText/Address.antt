-- ===== src/CText/Address.antt =====
-- Which bytes a printed number or address lacks, and how long it is.
use matador.Base.{ℕ, ◌/◌, ◌%◌, ◌≡◌, ◌≤◌, arith, false, [], ◌∷◌, ◌++◌, length, length-append, ◌==◌}
use matador.Memory.{Bytes}
use matador.CText.{is_digit, dec, inet_ntoa, member}
use matador.CText.Decimal.{AllDigits, dec-AllDigits, length-dec_byte}
use matador.CText.Search.{Lacks, LacksAll, Lacks-append}

Lacks-digits : (c : ℕ) (s : Bytes) → is_digit c ≡ false → AllDigits s → Lacks c s
Lacks-digits c [] h k = tt
Lacks-digits c (x ∷ s) h k = (ground (arith, k.0), Lacks-digits c s h k.1)

pub dec-Lacks : (c n : ℕ) → is_digit c ≡ false → Lacks c (dec n)
dec-Lacks c n h = Lacks-digits c (dec n) h (dec-AllDigits n)

pub inet_ntoa-Lacks : (c a : ℕ) → is_digit c ≡ false → (b'.' == c) ≡ false → Lacks c (inet_ntoa a)
unfolding inet_ntoa
inet_ntoa-Lacks c a h dot = Lacks-append c (dec (a / 16777216 % 256)) _ (dec-Lacks c _ h) (
  dot,
  Lacks-append c (dec (a / 65536 % 256)) _ (dec-Lacks c _ h) (
    dot,
    Lacks-append c (dec (a / 256 % 256)) _ (dec-Lacks c _ h) (dot, dec-Lacks c (a % 256) h),
  ),
)

pub length-inet_ntoa : (a : ℕ) → length (inet_ntoa a) ≤ 15
unfolding inet_ntoa
length-inet_ntoa a = omega (
  arith,
  length-append (dec (a / 16777216 % 256))
      (b'.' ∷ (dec (a / 65536 % 256) ++ (b'.' ∷ (dec (a / 256 % 256) ++ (b'.' ∷ dec (a % 256)))))),
  length-append (dec (a / 65536 % 256)) (b'.' ∷ (dec (a / 256 % 256) ++ (b'.' ∷ dec (a % 256)))),
  length-append (dec (a / 256 % 256)) (b'.' ∷ dec (a % 256)),
  length-dec_byte (a / 16777216 % 256),
  length-dec_byte (a / 65536 % 256),
  length-dec_byte (a / 256 % 256),
  length-dec_byte (a % 256),
)

-- Texts that lack each byte of a set lack the set.
pub LacksAll-one : (c : ℕ) (s : Bytes) → Lacks c s → LacksAll (c ∷ []) s
unfolding member
LacksAll-one c [] h = tt
LacksAll-one c (x ∷ s) h = (ground (arith, h.0), LacksAll-one c s h.1)

pub LacksAll-two : (c d : ℕ) (s : Bytes) → Lacks c s → Lacks d s → LacksAll (c ∷ d ∷ []) s
unfolding member
LacksAll-two c d [] h k = tt
LacksAll-two c d (x ∷ s) h k = (ground (arith, h.0, k.0), LacksAll-two c d s h.1 k.1)
