-- ===== src/Examples/Dump.antt =====
-- A concrete run of `hexDump` of measurement_proxy/tools.c, with a whole line and a rest; with no bytes
-- the array that it prints is not initialised.
use matador.Base.{◌≡◌, refl, arith, none, some, List, [], ◌∷◌, ◌++◌}
use matador.Memory.{Bytes}
use matador.CText.{text}
use matador.Tools.{dump_loop, hex_dump}
use matador.Tools.Lines.{joined, lines, heading}
use matador.Tools.Rows.{hex_dump-lines}

abbrev packet : List Bytes
packet = text "0123456789abcdef" ∷ (0 ∷ 65 ∷ []) ∷ []

hex_dump-lines_example :
    hex_dump (some (text "packet")) (joined packet)
    ≡ some (heading (some (text "packet")) ++ lines 0 packet)
hex_dump-lines_example =
    hex_dump-lines (some (text "packet")) packet (refl, (omega arith, omega arith)) (omega arith)

hex_dump_empty : hex_dump none [] ≡ none
unfolding hex_dump dump_loop
hex_dump_empty = refl
