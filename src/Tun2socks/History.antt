-- ===== src/Tun2socks/History.antt =====
-- The states that a client can be in, from `listener_accept_func` on.
use matador.Base.{ℕ, ◌≡◌, refl, arith, true, Option, some, inl, inr, Runs-at}
use matador.Memory.{Bytes}
use matador.Tun2socks.{Client, Lwip}
use matador.Tun2socks.Events.{accepted, Event, step}
use matador.Tun2socks.Sound.{IsSound, Fares, IsEnabled}
use matador.Tun2socks.Steps.{step-Runs}

-- `num` clients were there before. An event comes only to a client that is not freed.
pub data Reaches (num : ℕ) : Client → Type 0 where
  fresh : (junk : Option Bytes) → Reaches num (accepted num junk)
  after :
      (k : Lwip) (e : Event) {c d : Client}
      → Reaches num c
      → c.live ≡ true
      → IsEnabled e c
      → step k e c ≡ some d
      → Reaches num d

pub accepted-IsSound : (num : ℕ) (junk : Option Bytes) → IsSound (accepted num junk)
unfolding accepted
accepted-IsSound num junk = record {
  alive = refl;
  counted = omega arith;
  room = omega arith;
  one_open = refl;
  recv_open = λ _ _. refl;
  sent_open = λ f _. absurd (ground (arith, f));
  waiting = λ _ f. absurd (ground (arith, f));
  owes_client = λ f. absurd (ground (arith, f));
  owes_socks = λ f. absurd (ground (arith, f));
}

pub live-IsSound : (c : Client) → Fares c → c.live ≡ true → IsSound c
live-IsSound c (inl gone) h = absurd (ground (arith, gone, h))
live-IsSound c (inr s) h = s

-- Whatever has happened to a client since it was accepted, it is sound or freed: with one side closed
-- it still has data for the other, and there is none with both sides closed.
pub reached-Fares : (num : ℕ) (c : Client) → Reaches num c → Fares c
reached-Fares num c (fresh junk) = inr (accepted-IsSound num junk)
reached-Fares num c (after k e {c = b} r live h s) =
    Runs-at (step-Runs k e b (live-IsSound b (reached-Fares num b r) live) h) s
