-- ===== src/Ports.antt =====
-- The choice of the local UDP port, which measurement_proxy/proxy.c and measurement_proxy/tunnel.c
-- share: a random port until one can be bound, or the port that was asked for. `rand` gives the
-- draws and `bind` is the call on a port number, both arguments.
pub mod Draws
use matador.Base.{
  ℕ, zero, suc, ◌+◌, ◌%◌, Bool, true, false, Option, none, some, ◌==◌, if◌then◌else◌,
}
use matador.Base.Int.{ℤ, pos, negsuc, to_u16}

-- `rc == -1`
abbrev pub is_minus_one : ℤ → Bool
is_minus_one (pos n) = false
is_minus_one (negsuc n) = n == 0

-- `6001 + rand() % 22000`
unfoldable pub random_port : ℕ → ℕ
random_port r = 6001 + r % 22000

-- The loop `do … while(rc == -1)` from draw `i` on; `none` means that the fuel ran out. The result
-- is the port and the code of its `bind`.
unfoldable pub draw_loop : ℕ → ℕ → (ℕ → ℕ) → (ℕ → ℤ) → Option (ℕ × ℤ)
draw_loop zero i rand bind = none
draw_loop (suc fuel) i rand bind =
    let port = random_port (rand i) in
    let again = draw_loop fuel (suc i) rand bind in
    if is_minus_one (bind port) then again else some (port, bind port)

abbrev pub is_zero_port : ℤ → Bool
is_zero_port (pos n) = n == 0
is_zero_port (negsuc n) = false

abbrev pub drawn : Option (ℕ × ℤ) → Option (ℤ × ℤ)
drawn none = none
drawn (some r) = some (pos r.0, r.1)

-- `port`, the code of the last `bind`, and the number that was bound.
unfoldable pub open_port : ℕ → ℤ → (ℕ → ℕ) → (ℕ → ℤ) → Option (ℤ × ℤ)
open_port fuel port rand bind =
    if is_zero_port port
    then drawn (draw_loop fuel 0 rand bind)
    else some (port, bind (to_u16 port))
