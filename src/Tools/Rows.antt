-- ===== src/Tools/Rows.antt =====
-- measurement_proxy/tools.c: `hexDump` prints the lines that Lines describes.
use matador.Base.{
  ℕ, zero, suc, ◌+◌, ◌-◌, ◌%◌, ◌≡◌, ◌≤◌, ◌<◌, refl, sym, ◌∙◌, ap, arith, true, false, not, Option,
  none, some, List, [], ◌∷◌, ◌++◌, length, take, ◌==◌, ◌>>=◌, append-nil, append_assoc, take-all,
  length-append,
}
use native.Mathlib.Nat.{zero-add}
use matador.Memory.{Bytes}
use matador.Tun2socks.{is_some}
use matador.CText.{text, hex_byte}
use matador.Tools.{
  hex_four, Dump, print, print_buff, shown, dump_byte, dump_loop, pad_loop, title, hex_dump,
}
use matador.Tools.Lines.{
  hexes, blanks, lines, heading, joined, AreLines, shown_all, dumped_all, shown_all-as_characters,
  hex_four-four_digits,
}

length-shown_all : (cs : Bytes) → length (shown_all cs) ≡ length cs
length-shown_all [] = refl
length-shown_all (c ∷ cs) = ap suc (length-shown_all cs)

from_same :
    (rest : Bytes) {i j : ℕ} {out out' s s' : Bytes}
    → i ≡ j
    → out ≡ out'
    → s ≡ s'
    → dump_loop i rest (record { out = out; buff = some s })
      ≡ dump_loop j rest (record { out = out'; buff = some s' })
from_same rest e f g = rw (e, f, g) refl

-- Inside of a line, behind the characters `s` of it.
dump_loop-inside :
    (i : ℕ) (cs rest out s : Bytes)
    → i % 16 ≡ length s % 16
    → 0 < length s
    → length s + length cs ≤ 16
    → dump_loop i (cs ++ rest) (record { out = out; buff = some s })
      ≡ dump_loop
          (i + length cs)
          rest
          (record { out = out ++ hexes cs; buff = some (s ++ shown_all cs) })
unfolding dump_loop dump_byte
dump_loop-inside i [] rest out s at_i pos room =
    from_same rest (omega arith) (sym (append-nil out)) (sym (append-nil s))
dump_loop-inside i (c ∷ cs) rest out s at_i pos room =
    let inside : (i % 16 == 0) ≡ false = ground (arith, at_i, pos, room) in
    let whole : take (i % 16) s ≡ s = take-all (i % 16) s (omega (arith, at_i, pos, room)) in
    let longer : length (s ++ shown c ∷ []) ≡ length s + 1 = length-append s (shown c ∷ []) in
    rw (inside, whole)
      (dump_loop-inside (suc i) cs rest _ (s ++ shown c ∷ [])
          (omega (arith, longer, at_i, pos, room)) (omega (arith, longer))
          (omega (arith, longer, room))
        ∙ from_same rest (omega arith) (append_assoc out (text " " ++ hex_byte c) (hexes cs))
            (append_assoc s (shown c ∷ []) (shown_all cs)))

-- What is still to be printed of the line before.
abbrev pending : Option Bytes → Bytes
pending none = []
pending (some s) = text "  " ++ (s ++ text "\n")

-- A line from its first byte on. Only the first one has none before it.
dump_loop-line :
    (i : ℕ) (c : ℕ) (cs rest out : Bytes) (buff : Option Bytes)
    → i % 16 ≡ 0
    → (i == 0) ≡ not (is_some buff)
    → length cs < 16
    → dump_loop i (c ∷ (cs ++ rest)) (record { out = out; buff = buff })
      ≡ dump_loop (i + length (c ∷ cs)) rest (record {
        out = out ++ (pending buff ++ (text "  " ++ (hex_four i ++ (text " " ++ hexes (c ∷ cs)))));
        buff = some (shown_all (c ∷ cs));
      })
unfolding dump_loop dump_byte
dump_loop-line i c cs rest out none at_i first room =
    let start : (i % 16 == 0) ≡ true = ground (arith, at_i) in
    rw (start, first)
      (dump_loop-inside (suc i) cs rest _ (shown c ∷ []) (omega (arith, at_i)) (omega arith)
          (omega (arith, room))
        ∙ from_same rest (omega arith) (simp append_assoc) refl)
dump_loop-line i c cs rest out (some s) at_i first room =
    let start : (i % 16 == 0) ≡ true = ground (arith, at_i) in
    rw (start, first)
      (dump_loop-inside (suc i) cs rest _ (shown c ∷ []) (omega (arith, at_i)) (omega arith)
          (omega (arith, room))
        ∙ from_same rest (omega arith) (simp append_assoc) refl)

pad_loop-blanks : (k fuel i : ℕ) → k < fuel → k < 16 → (i + k) % 16 ≡ 0 → pad_loop fuel i ≡ blanks k
unfolding pad_loop
pad_loop-blanks k zero i more small e = absurd (omega arith)
pad_loop-blanks zero (suc fuel) i more small e =
    let stop : (i % 16 == 0) ≡ true = ground (arith, e) in rw stop refl
pad_loop-blanks (suc k) (suc fuel) i more small e =
    let go : (i % 16 == 0) ≡ false = ground (arith, e, small) in
    rw (go, pad_loop-blanks k fuel (suc i) (omega arith) (omega arith) (omega (arith, e))) refl

-- What `hexDump` does behind its loop, for `n` bytes.
abbrev ends : ℕ → Dump → Option Bytes
ends n d = print_buff (print (pad_loop 16 n) d) >>= λ d'. some d'.out

dump_last :
    (i : ℕ) (c : ℕ) (cs out : Bytes) (buff : Option Bytes)
    → i % 16 ≡ 0
    → (i == 0) ≡ not (is_some buff)
    → length cs < 16
    → (dump_loop i (c ∷ (cs ++ [])) (record { out = out; buff = buff })
        >>= ends (i + length (c ∷ (cs ++ []))))
      ≡ some (out ++ (pending buff ++ dumped_all i ((c ∷ cs) ∷ [])))
unfolding dump_loop
dump_last i c cs out buff at_i first room =
    let size : length (cs ++ []) ≡ length cs = ap length (append-nil cs) in
    rw
      (
        dump_loop-line i c cs [] out buff at_i first room,
        pad_loop-blanks (16 - length (c ∷ cs)) 16 (i + length (c ∷ (cs ++ []))) (omega arith)
            (omega arith) (omega (arith, size, at_i, room)),
      )
      (ap some (simp append_assoc))

dump_lines :
    (i : ℕ) (ls : List Bytes) (out : Bytes) (buff : Option Bytes)
    → i % 16 ≡ 0
    → (i == 0) ≡ not (is_some buff)
    → AreLines ls
    → (dump_loop i (joined ls) (record { out = out; buff = buff })
        >>= ends (i + length (joined ls)))
      ≡ some (out ++ (pending buff ++ dumped_all i ls))
dump_lines i [] out buff at_i first h = absurd h
dump_lines i ([] ∷ []) out buff at_i first h = absurd (omega (arith, h.0))
dump_lines i ((c ∷ cs) ∷ []) out buff at_i first h =
    dump_last i c cs out buff at_i first (omega (arith, h.1))
dump_lines i ([] ∷ m ∷ ls) out buff at_i first h = absurd (omega (arith, h.0))
dump_lines i ((c ∷ cs) ∷ m ∷ ls) out buff at_i first h =
    let rest = joined (m ∷ ls) in
    let size : length (cs ++ rest) ≡ length cs + length rest = length-append cs rest in
    let place : i + length (c ∷ (cs ++ rest)) ≡ i + 16 + length rest = omega (arith, size, h.0) in
    let next : i + length (c ∷ cs) ≡ i + 16 = omega (arith, h.0) in
    let full : 16 - length (c ∷ cs) ≡ 0 = omega (arith, h.0) in
    rw (dump_loop-line i c cs rest out buff at_i first (omega (arith, h.0)), place, next, full)
      (dump_lines (i + 16) (m ∷ ls) _ (some (shown_all (c ∷ cs))) (omega (arith, at_i))
          (ground arith) h.1
        ∙ ap some (simp append_assoc))

dumped_all-lines :
    (i : ℕ) (ls : List Bytes)
    → AreLines ls
    → i + length (joined ls) ≤ 65536
    → dumped_all i ls ≡ lines i ls
dumped_all-lines i [] h short = refl
dumped_all-lines i (l ∷ []) h short =
    let size : length (l ++ []) ≡ length l = ap length (append-nil l) in
    rw (hex_four-four_digits i (omega (arith, h.0, size, short)), shown_all-as_characters l) refl
dumped_all-lines i (l ∷ m ∷ ls) h short =
    let size : length (l ++ joined (m ∷ ls)) ≡ length l + length (joined (m ∷ ls)) =
      length-append l (joined (m ∷ ls)) in
    rw
      (
        hex_four-four_digits i (omega (arith, h.0, size, short)),
        shown_all-as_characters l,
        dumped_all-lines (i + 16) (m ∷ ls) h.1 (omega (arith, h.0, size, short)),
      )
      refl

title-heading : (desc : Option Bytes) → title desc ≡ heading desc
title-heading none = refl
title-heading (some desc) = refl

-- `hexDump` of one byte or more, and of 65536 at most, prints the description, if there is one, and a
-- line for every sixteen bytes and for what is left: the offset, the bytes in hexadecimal, and, in a
-- column of its own, the bytes as characters, with a dot for each that cannot be printed.
pub hex_dump-lines :
    (desc : Option Bytes) (ls : List Bytes)
    → AreLines ls
    → length (joined ls) ≤ 65536
    → hex_dump desc (joined ls) ≡ some (heading desc ++ lines 0 ls)
unfolding hex_dump
hex_dump-lines desc ls h short = rw (← zero-add (length (joined ls))) (
    dump_lines 0 ls (title desc) none refl refl h
    ∙ ap some (rw (title-heading desc, dumped_all-lines 0 ls h (omega (arith, short))) refl))
