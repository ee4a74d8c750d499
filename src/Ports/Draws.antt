-- ===== src/Ports/Draws.antt =====
-- The drawn port: its range, and when the loop ends.
use matador.Base.{
  ℕ, zero, suc, ◌+◌, ◌≤◌, ◌<◌, ◌≡◌, arith, true, false, Option, none, some, Runs, Runs-some,
  Runs-if,
}
use matador.Base.Int.{ℤ, pos, to_u16}
use native.Mathlib.Nat.{add-zero, zero-add, add-suc, suc-add}
use matador.Ports.{is_minus_one, random_port, draw_loop, is_zero_port, drawn, open_port}

pub random_port_bounds : (r : ℕ) → (6001 ≤ random_port r) × (random_port r ≤ 28000)
unfolding random_port
random_port_bounds r = omega arith

draw_loop-first :
    (k fuel i : ℕ) (rand : ℕ → ℕ) (bind : ℕ → ℤ)
    → k < fuel
    → ((j : ℕ) → j < i + k → is_minus_one (bind (random_port (rand j))) ≡ true)
    → is_minus_one (bind (random_port (rand (i + k)))) ≡ false
    → draw_loop fuel i rand bind
      ≡ some (random_port (rand (i + k)), bind (random_port (rand (i + k))))
unfolding draw_loop
draw_loop-first k zero i rand bind h taken free = absurd (omega arith)
draw_loop-first zero (suc fuel) i rand bind h taken free =
    rw (add-zero i) (rw (rw (add-zero i) at free))
draw_loop-first (suc k) (suc fuel) i rand bind h taken free =
    rw (taken i (omega arith), add-suc i k, ← suc-add i k)
      (draw_loop-first k fuel (suc i) rand bind (omega arith) (λ j g. taken j (omega arith))
        (rw (suc-add i k, ← add-suc i k) free))

draw_loop-Runs :
    (k fuel i : ℕ) (rand : ℕ → ℕ) (bind : ℕ → ℤ)
    → k < fuel
    → is_minus_one (bind (random_port (rand (i + k)))) ≡ false
    → Runs (λ _. Unit {0}) (draw_loop fuel i rand bind)
unfolding draw_loop
draw_loop-Runs k zero i rand bind h free = absurd (omega arith)
draw_loop-Runs zero (suc fuel) i rand bind h free = rw (rw (add-zero i) at free) (Runs-some _ tt)
draw_loop-Runs (suc k) (suc fuel) i rand bind h free =
    Runs-if (is_minus_one (bind (random_port (rand i)))) _ _
      (λ _.
        draw_loop-Runs k fuel (suc i) rand bind (omega arith)
          (rw (suc-add i k, ← add-suc i k) free))
      (λ _. Runs-some _ tt)

drawn-Runs : (r : Option (ℕ × ℤ)) → Runs (λ _. Unit {0}) r → Runs (λ _. Unit {0}) (drawn r)
drawn-Runs none h = absurd (ground (arith, h.runs))
drawn-Runs (some r) h = Runs-some _ tt

-- If one of the draws can be bound, the loop ends.
pub open_port-Runs :
    (k fuel : ℕ) (port : ℤ) (rand : ℕ → ℕ) (bind : ℕ → ℤ)
    → k < fuel
    → is_minus_one (bind (random_port (rand k))) ≡ false
    → Runs (λ _. Unit {0}) (open_port fuel port rand bind)
unfolding open_port
open_port-Runs k fuel port rand bind h free =
    Runs-if (is_zero_port port) _ _
      (λ _. drawn-Runs _ (draw_loop-Runs k fuel 0 rand bind h (rw (zero-add k) free)))
      (λ _. Runs-some _ tt)

-- With port 0 the loop ends at the first draw that can be bound, whichever that is, and the result
-- is that draw, a port of 6001 to 28000; the code is not -1.
pub open_port-random :
    (k fuel : ℕ) (rand : ℕ → ℕ) (bind : ℕ → ℤ)
    → k < fuel
    → ((j : ℕ) → j < k → is_minus_one (bind (random_port (rand j))) ≡ true)
    → is_minus_one (bind (random_port (rand k))) ≡ false
    → (open_port fuel (pos 0) rand bind
        ≡ some (pos (random_port (rand k)), bind (random_port (rand k))))
      × (6001 ≤ random_port (rand k))
      × (random_port (rand k) ≤ 28000)
unfolding open_port
open_port-random k fuel rand bind h taken free =
    let e = rw (zero-add k) at (
      draw_loop-first k fuel 0 rand bind h (λ j g. taken j (omega arith)) (rw (zero-add k) free)) in
    (rw e, (random_port_bounds (rand k)).0, (random_port_bounds (rand k)).1)

-- A port that was asked for is tried once, as it is modulo 2^16.
pub open_port-fixed :
    (fuel : ℕ) (port : ℤ) (rand : ℕ → ℕ) (bind : ℕ → ℤ)
    → is_zero_port port ≡ false
    → open_port fuel port rand bind ≡ some (port, bind (to_u16 port))
unfolding open_port
open_port-fixed fuel port rand bind h = rw h
