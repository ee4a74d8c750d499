-- ===== src/Tools/Lines.antt =====
-- measurement_proxy/tools.c: the lines that `hexDump` prints, described, and the
-- characters and numbers in them.
use matador.Base.{
  ℕ, leb, ltb, Bool-cases, inl, inr, if◌then◌else◌, ◌&&◌, ◌/◌, zero, suc, ◌+◌, ◌-◌, ◌%◌, ◌≡◌, ◌≤◌,
  ◌<◌, refl, arith, true, Option, none, some, List, [], ◌∷◌, ◌++◌, length,
}
use matador.Memory.{Bytes}
use matador.CText.{text, hex_digit, hex_byte}
use matador.Tools.{hex_onto, zeros_to, hex_four, shown}

abbrev pub hexes : Bytes → Bytes
hexes [] = []
hexes (c ∷ cs) = text " " ++ (hex_byte c ++ hexes cs)

-- A byte as a character: the printable ones of ASCII as they are, and a dot for any other.
abbrev pub as_character : ℕ → ℕ
as_character c = if leb 32 c && leb c 126 then c else 46

abbrev pub as_characters : Bytes → Bytes
as_characters [] = []
as_characters (c ∷ cs) = as_character c ∷ as_characters cs

-- An offset of 16 bits in four hexadecimal digits.
abbrev pub four_digits : ℕ → Bytes
four_digits n =
    hex_digit (n / 4096 % 16)
    ∷ hex_digit (n / 256 % 16)
    ∷ hex_digit (n / 16 % 16)
    ∷ hex_digit (n % 16)
    ∷ []

-- The place of `k` bytes that are not there.
abbrev pub blanks : ℕ → Bytes
blanks zero = []
blanks (suc k) = text "   " ++ blanks k

-- A line: the offset, the bytes in hexadecimal, and the bytes as characters.
abbrev pub line : ℕ → Bytes → Bytes
line i cs =
    text "  "
    ++ (four_digits i
        ++ (text " "
            ++ (hexes cs
                ++ (blanks (16 - length cs) ++ (text "  " ++ (as_characters cs ++ text "\n"))))))

abbrev pub lines : ℕ → List Bytes → Bytes
lines i [] = []
lines i (l ∷ ls) = line i l ++ lines (i + 16) ls

-- The description, if there is one.
abbrev pub heading : Option Bytes → Bytes
heading none = []
heading (some desc) = desc ++ (b':' ∷ 10 ∷ [])

abbrev pub joined : List Bytes → Bytes
joined [] = []
joined (l ∷ ls) = l ++ joined ls

-- Lines of sixteen bytes, but for the last one, which has one at least.
abbrev pub AreLines : List Bytes → Type 0
AreLines [] = ⊥
AreLines (l ∷ []) = (0 < length l) × (length l ≤ 16)
AreLines (l ∷ ls) = (length l ≡ 16) × AreLines ls

-- The same with the functions of tools.c.
abbrev pub shown_all : Bytes → Bytes
shown_all [] = []
shown_all (c ∷ cs) = shown c ∷ shown_all cs

abbrev pub line_end : Bytes → Bytes
line_end cs = text "  " ++ (shown_all cs ++ text "\n")

abbrev pub dumped : ℕ → Bytes → Bytes
dumped i cs =
    text "  "
    ++ (hex_four i ++ (text " " ++ (hexes cs ++ (blanks (16 - length cs) ++ line_end cs))))

abbrev pub dumped_all : ℕ → List Bytes → Bytes
dumped_all i [] = []
dumped_all i (l ∷ ls) = dumped i l ++ dumped_all (i + 16) ls

pub shown-as_character : (c : ℕ) → shown c ≡ as_character c
shown-as_character c = ground arith

pub shown_all-as_characters : (cs : Bytes) → shown_all cs ≡ as_characters cs
shown_all-as_characters [] = refl
shown_all-as_characters (c ∷ cs) = rw (shown-as_character c, shown_all-as_characters cs) refl

pub hex_four-four_digits : (n : ℕ) → n < 65536 → hex_four n ≡ four_digits n
unfolding hex_four hex_onto zeros_to
hex_four-four_digits n small = elim (Bool-cases (ltb n 16)) [
  | inl one ↦
      let a : n / 4096 % 16 ≡ 0 = ground (arith, one) in
      let b : n / 256 % 16 ≡ 0 = ground (arith, one) in
      let c : n / 16 % 16 ≡ 0 = ground (arith, one) in rw (one, a, b, c) refl
  | inr more ↦ rw more (elim (Bool-cases (ltb (n / 16) 16)) [
    | inl two ↦
        let a : n / 4096 % 16 ≡ 0 = ground (arith, two) in
        let b : n / 256 % 16 ≡ 0 = ground (arith, two) in rw (two, a, b) refl
    | inr more₂ ↦
        let b : n / 16 / 16 ≡ n / 256 = omega arith in
        rw (more₂, b)
          (elim (Bool-cases (ltb (n / 256) 16)) [
            | inl three ↦ let a : n / 4096 % 16 ≡ 0 = ground (arith, three) in rw (three, a) refl
            | inr more₃ ↦
                let a : n / 256 / 16 ≡ n / 4096 = omega arith in
                let four : ltb (n / 4096) 16 ≡ true = ground (arith, small) in
                rw (more₃, a, four) refl
          ])
  ])
]
