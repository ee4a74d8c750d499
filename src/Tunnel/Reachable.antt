-- ===== src/Tunnel/Reachable.antt =====
-- measurement_proxy/tunnel.c: how the local side of the UDP tunnel is opened, and the address that the
-- proxy is told.
use matador.Base.{
  ℕ, zero, suc, ◌≡◌, ◌≤◌, ◌<◌, ◌⊎◌, refl, arith, true, false, Option, none, some, length, replicate,
  Runs, Runs-some, Runs-bind, Runs-if, Ensures, Ensures-none, Ensures-some, Ensures-if, inl, inr,
  Bool-cases,
}
use matador.Base.Int.{ℤ, pos, minus_one, to_u16}
use matador.Socket.{SockaddrIn}
use matador.Ports.{random_port, is_minus_one, draw_loop, is_zero_port, drawn, open_port}
use matador.Ports.Draws.{open_port-Runs}
use matador.Stun.Request.{stun_count}
use matador.Stun.Rounds.{the_request}
use matador.Stun.Retries.{stun_request-Runs}
use matador.Tunnel.Options.{Options}
use matador.Tunnel.Local.{
  Network, Local, exit_failure, return_minus_one, opened, ask_stun, open_local,
}

-- The sizes of the buffers.
pub record IsNetwork (w : Network) : Type 0 where
  pub id_size : length w.random_id ≡ 16
  pub request_size : length w.request_junk ≡ 1024
  pub reply_size : length w.reply_junk ≡ 1024

-- The loop over random ports ends with one that is bound.
draw_loop-bound :
    (fuel i : ℕ) (rand : ℕ → ℕ) (bind : ℕ → ℤ)
    → Ensures (λ r. is_minus_one r.1 ≡ false) (draw_loop fuel i rand bind)
unfolding draw_loop
draw_loop-bound zero i rand bind = Ensures-none
draw_loop-bound (suc fuel) i rand bind =
    Ensures-if (is_minus_one (bind (random_port (rand i)))) _ _
      (λ _. draw_loop-bound fuel (suc i) rand bind) (λ free. Ensures-some _ free)

drawn-bound :
    (r : Option (ℕ × ℤ))
    → Ensures (λ r. is_minus_one r.1 ≡ false) r
    → Ensures (λ r. is_minus_one r.1 ≡ false) (drawn r)
drawn-bound none h = Ensures-none
drawn-bound (some r) h = Ensures-some _ (h.at r refl)

-- No port can be bound only if one was asked for.
abbrev Refused : Network → Options → Type 0
Refused w o = (is_zero_port o.port ≡ false) × (is_minus_one (w.bind (to_u16 o.port)) ≡ true)

open_port-bound :
    (fuel : ℕ) (w : Network) (o : Options)
    → Ensures (λ r. (is_minus_one r.1 ≡ false) ⊎ Refused w o) (open_port fuel o.port w.rand w.bind)
unfolding open_port
open_port-bound fuel w o =
    Ensures-if (is_zero_port o.port) _ _
      (λ _. record {
        at = λ r e. inl ((drawn-bound _ (draw_loop-bound fuel 0 w.rand w.bind)).at r e);
      })
      λ fixed. Ensures-some _ (elim (Bool-cases (is_minus_one (w.bind (to_u16 o.port)))) [
        | inl refused ↦ inr (fixed, refused)
        | inr bound ↦ inl bound
      ])

refused :
    (w : Network) (o : Options) (code : ℤ)
    → (is_minus_one code ≡ false) ⊎ Refused w o
    → is_minus_one code ≡ true
    → Refused w o
refused w o code (inl bound) fails = absurd (ground (arith, bound, fails))
refused w o code (inr r) fails = r

-- The STUN server, once it is found.
abbrev stun_server : Options → ℕ → SockaddrIn
stun_server o addr = record { sin_port = to_u16 o.stunport; s_addr = addr }

-- Each way in which this part of `main` ends, and its reason.
abbrev pub OpensFor : Network → Options → Local → Type 0
OpensFor w o exit_failure = Refused w o
OpensFor w o return_minus_one = w.gethostbyname o.stunserver ≡ none
OpensFor w o (opened port r) =
    (addr : ℕ) × (w.gethostbyname o.stunserver ≡ some addr)
    × (r.sends ≡ replicate (length r.sends) (the_request (stun_server o addr) w.random_id))
    × (length r.sends ≤ 3)
    × ((r.ret ≡ pos 0) ⊎ ((r.ret ≡ minus_one) × (r.answer ≡ some w.mapped_junk)))

ask_stun-Runs :
    (w : Network) (o : Options) (port : ℤ) (host : Option ℕ)
    → IsNetwork w
    → w.gethostbyname o.stunserver ≡ host
    → Runs (OpensFor w o) (ask_stun w o port host)
unfolding ask_stun
ask_stun-Runs w o port none is e = Runs-some _ e
ask_stun-Runs w o port (some addr) is e =
    Runs-bind (λ r. some (opened port r))
      (stun_request-Runs stun_count (stun_server o addr) w.random_id w.request_junk w.reply_junk
        w.stun is.id_size is.request_size is.reply_size w.mapped_junk)
      λ r _ q. Runs-some _ (addr, e, q.0, q.1, q.2)

-- If one of the random ports can be bound, this part of `main` ends: with a failure only if the port that
-- was asked for is refused, with -1 only if the STUN server is not found, and otherwise with up to
-- three binding requests to this server. Where `stun_request` returns -1, `mapped` is what the stack
-- held.
pub open_local-Runs :
    (k fuel : ℕ) (w : Network) (o : Options)
    → IsNetwork w
    → k < fuel
    → is_minus_one (w.bind (random_port (w.rand k))) ≡ false
    → Runs (OpensFor w o) (open_local fuel w o)
unfolding open_local
open_local-Runs k fuel w o is more free =
    Runs-bind _ (open_port-Runs k fuel o.port w.rand w.bind more free) λ bound e _.
      Runs-if (is_minus_one bound.1) _ _
        (λ fails. Runs-some _ (refused w o bound.1 ((open_port-bound fuel w o).at bound e) fails))
        λ _. ask_stun-Runs w o bound.0 (w.gethostbyname o.stunserver) is refl
