-- ===== src/Tools.antt =====
-- measurement_proxy/tools.c: `hexDump`, where DEBUG_PRINT prints (NDEBUG is not defined). The result is
-- what it prints. An array that is printed before it is written is a fault.
pub mod Lines
pub mod Rows
use matador.Base.{
  ℕ, zero, suc, ◌+◌, ◌*◌, ◌/◌, ◌%◌, Option, none, some, [], ◌∷◌, ◌++◌, length, take, leb, ltb, ◌&&◌,
  not, ◌||◌, ◌==◌, if◌then◌else◌, ◌>>=◌,
}
use matador.Memory.{Bytes}
use matador.CText.{text, hex_digit, hex_byte}

-- `%x` of a number of 32 bits, with fuel: each round divides by 16.
unfoldable pub hex_onto : ℕ → ℕ → Bytes → Bytes
hex_onto zero n out = out
hex_onto (suc fuel) n out =
    let digit = hex_digit (n % 16) in
    let more = hex_onto fuel (n / 16) (digit ∷ out) in if ltb n 16 then digit ∷ out else more

-- Zeros in front, up to `width` characters.
unfoldable pub zeros_to : ℕ → Bytes → Bytes
zeros_to zero s = s
zeros_to (suc k) s = if leb (suc k) (length s) then s else b'0' ∷ zeros_to k s

-- `%04x`; eight rounds are enough.
unfoldable pub hex_four : ℕ → Bytes
hex_four n = zeros_to 4 (hex_onto 8 n [])

-- What has been printed, and the text in `buff`, `none` before it is written.
pub record Dump : Type 0 where
  pub out : Bytes
  pub buff : Option Bytes

abbrev pub print : Bytes → Dump → Dump
print s d = record d { out = d.out ++ s }

-- `DEBUG_PRINT("  %s\n", buff)`
abbrev pub print_buff : Dump → Option Dump
print_buff d = d.buff >>= λ s. some (print (text "  " ++ (s ++ text "\n")) d)

-- The beginning of a line.
abbrev pub new_line : ℕ → Dump → Option Dump
new_line i d = do
  d' ← if not (i == 0) then print_buff d else some d
  some (print (text "  " ++ (hex_four i ++ text " ")) d')

-- `(pc[i] < 0x20) || (pc[i] > 0x7e)`
abbrev pub shown : ℕ → ℕ
shown c = if ltb c 0x20 || ltb 0x7e c then b'.' else c

-- The character is put behind the first `i % 16` of `buff`, and a NUL behind it.
abbrev pub put_char : ℕ → ℕ → Option Bytes → Option Bytes
put_char i c buff =
    if i % 16 == 0
    then some (shown c ∷ [])
    else buff >>= λ s. some (take (i % 16) s ++ shown c ∷ [])

unfoldable pub dump_byte : ℕ → ℕ → Dump → Option Dump
unfolding hex_four
dump_byte i c d = do
  d' ← if i % 16 == 0 then new_line i d else some d
  s ← put_char i c d'.buff
  some (record { out = d'.out ++ (text " " ++ hex_byte c); buff = some s })

-- `for (i = 0; i < len; i++)`, from byte `i` on
unfoldable pub dump_loop : ℕ → Bytes → Dump → Option Dump
dump_loop i [] d = some d
dump_loop i (c ∷ cs) d = do d' ← dump_byte i c d; dump_loop (suc i) cs d'

-- `while ((i % 16) != 0)`, with fuel
unfoldable pub pad_loop : ℕ → ℕ → Bytes
pad_loop zero i = []
pad_loop (suc fuel) i =
    let more = pad_loop fuel (suc i) in if not (i % 16 == 0) then text "   " ++ more else []

abbrev pub title : Option Bytes → Bytes
title none = []
title (some desc) = desc ++ text ":\n"

-- `hexDump`; 15 rounds of padding are enough.
unfoldable pub hex_dump : Option Bytes → Bytes → Option Bytes
unfolding dump_loop pad_loop
hex_dump desc bytes = do
  d ← dump_loop 0 bytes (record { out = title desc; buff = none })
  d' ← print_buff (print (pad_loop 16 (length bytes)) d)
  some d'.out
