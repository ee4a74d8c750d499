-- ===== src/CText.antt =====
-- The C library's text functions that tunnel.c, proxy.c and tools.c call, over texts without their
-- terminating NUL: `strchr`, `strcmp`, `strcspn`, `strstr`, `strtol`, `atoi`, `inet_ntoa`, and the
-- conversions `%d`, `%02x` and `%04x` of `printf`.
pub mod Decimal
pub mod Search
pub mod Address
use Prim.Native.Char.{code}
use Prim.Native.String.{String}
use matador.Base.{
  ℕ, zero, suc, ◌+◌, ◌-◌, ◌*◌, ◌/◌, ◌%◌, ◌^◌, Bool, true, false, not, ◌&&◌, ◌||◌, Option, none,
  some, List, [], ◌∷◌, ◌++◌, length, take, drop, ltb, leb, ◌==◌, if◌then◌else◌,
}
use matador.Base.Int.{ℤ, pos, negsuc, negate}
use matador.Memory.{Bytes}

-- The bytes of a literal; every literal below is ASCII.
abbrev pub text : String → Bytes
text String.[] = []
text (String.◌∷◌ c s) = code c ∷ text s

abbrev pub is_digit : ℕ → Bool
is_digit c = leb b'0' c && leb c b'9'

-- `isspace`
abbrev pub is_space : ℕ → Bool
is_space c = c == 32 || (leb 9 c && leb c 13)

-- `%d` of a number that is not negative. The fuel `n` is enough: each round divides by 10.
pub dec_onto : ℕ → ℕ → Bytes → Bytes
dec_onto zero n out = out
dec_onto (suc fuel) n out =
    let digit = 48 + n % 10 in
    let more = dec_onto fuel (n / 10) (digit ∷ out) in if ltb n 10 then digit ∷ out else more

unfoldable pub dec : ℕ → Bytes
unfolding dec_onto
dec n = dec_onto (suc n) n []

-- `%d`
unfoldable pub dec_int : ℤ → Bytes
dec_int (pos n) = dec n
dec_int (negsuc n) = b'-' ∷ dec (suc n)

-- The value of the leading digits, behind `v`.
unfoldable pub digits_value : ℕ → Bytes → ℕ
digits_value v [] = v
digits_value v (c ∷ cs) = if is_digit c then digits_value (v * 10 + (c - 48)) cs else v

unfoldable pub skip_spaces : Bytes → Bytes
skip_spaces [] = []
skip_spaces (c ∷ cs) = if is_space c then skip_spaces cs else c ∷ cs

-- A `long`: values past its range are clamped.
abbrev pub clamp_long : ℕ → ℕ → ℕ
clamp_long limit n = if ltb limit n then limit else n

abbrev pub signed_value : Bytes → ℤ
signed_value [] = pos 0
signed_value (c ∷ cs) =
    if c == b'-'
    then negate (clamp_long (2 ^ 63) (digits_value 0 cs))
    else if c == b'+'
    then pos (clamp_long (2 ^ 63 - 1) (digits_value 0 cs))
    else pos (clamp_long (2 ^ 63 - 1) (digits_value 0 (c ∷ cs)))

-- `strtol(s, NULL, 10)`
unfoldable pub strtol : Bytes → ℤ
unfolding skip_spaces
strtol s = signed_value (skip_spaces s)

-- The `int` with the low 32 bits of a number.
abbrev pub wrap_int : ℕ → ℤ
wrap_int m = if ltb m (2 ^ 31) then pos m else negsuc (2 ^ 32 - 1 - m)

-- The conversion of a `long` to `int`, modulo 2^32
abbrev pub to_int : ℤ → ℤ
to_int (pos n) = wrap_int (n % 2 ^ 32)
to_int (negsuc n) = wrap_int (2 ^ 32 - 1 - n % 2 ^ 32)

unfoldable pub atoi : Bytes → ℤ
unfolding strtol
atoi s = to_int (strtol s)

-- `strchr`, with what stands before the character and behind it
unfoldable pub strchr : Bytes → ℕ → Option (Bytes × Bytes)
strchr [] c = none
strchr (x ∷ s) c =
    let found = strchr s c in
    if x == c then some ([], s) else elim found [ none ↦ none | some (a, b) ↦ some (x ∷ a, b) ]

-- `strcmp(a, b) == 0`
unfoldable pub streq : Bytes → Bytes → Bool
streq [] [] = true
streq (x ∷ a) (y ∷ b) = x == y && streq a b
streq _ _ = false

unfoldable pub member : ℕ → Bytes → Bool
member c [] = false
member c (x ∷ s) = x == c || member c s

-- `strcspn(s, reject)`
unfoldable pub strcspn : Bytes → Bytes → ℕ
unfolding member
strcspn [] reject = 0
strcspn (c ∷ s) reject = if member c reject then 0 else suc (strcspn s reject)

unfoldable pub is_prefix : Bytes → Bytes → Bool
is_prefix [] s = true
is_prefix (x ∷ p) [] = false
is_prefix (x ∷ p) (y ∷ s) = x == y && is_prefix p s

-- `strstr`: the text from the first place at which `needle` stands
unfoldable pub strstr : Bytes → Bytes → Option Bytes
unfolding is_prefix
strstr [] needle = if is_prefix needle [] then some [] else none
strstr (c ∷ s) needle =
    let later = strstr s needle in if is_prefix needle (c ∷ s) then some (c ∷ s) else later

-- `inet_ntoa` of an address in network order
unfoldable pub inet_ntoa : ℕ → Bytes
inet_ntoa a =
    dec (a / 16777216 % 256)
    ++ (b'.' ∷ (dec (a / 65536 % 256) ++ (b'.' ∷ (dec (a / 256 % 256) ++ (b'.' ∷ dec (a % 256))))))

-- A hexadecimal digit, and `%02x` of a byte.
abbrev pub hex_digit : ℕ → ℕ
hex_digit d = if ltb d 10 then 48 + d else 87 + d

abbrev pub hex_byte : ℕ → Bytes
hex_byte b = hex_digit (b / 16 % 16) ∷ hex_digit (b % 16) ∷ []
