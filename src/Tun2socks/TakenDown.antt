-- ===== src/Tun2socks/TakenDown.antt =====
-- tun2socks.c: the functions that take a client down.
use matador.Base.{
  ℕ, suc, ◌≡◌, ◌<◌, ◌≤◌, refl, ◌∙◌, arith, Bool, true, false, not, ◌&&◌, ◌||◌, Option, some, [],
  ◌∷◌, length, ltb, inl, inr, Bool-cases, Runs, Runs-some, Runs-if, Runs-map,
}
use matador.Memory.{Bytes}
use matador.Tun2socks.{Client, Lwip, require, call, is_some, is_empty, tcp_wnd, tcp_abort}
use matador.Tun2socks.Closing.{
  with_client_closed, with_socks_closed, client_dealloc, remove_callbacks, close_pcb,
  client_handle_freed_client, client_free_client, client_free_socks, client_abort_client,
  murder_client, murder_socks, client_murder,
}
use matador.Tun2socks.Sound.{IsSound, Fares}

pub is_empty-pos : (b : Bytes) → is_empty b ≡ false → 0 < length b
is_empty-pos [] h = absurd (ground arith)
is_empty-pos (x ∷ b) h = omega arith

-- What taking down needs: the client is in the list, and its buffer is in its bounds.
pub record IsListed (c : Client) : Type 0 where
  pub alive : c.live ≡ true
  pub counted : 0 < c.num_clients
  pub room : length c.buf ≤ tcp_wnd

pub sound-IsListed : (c : Client) → IsSound c → IsListed c
sound-IsListed c s = record { alive = s.alive; counted = s.counted; room = s.room }

pub client_dealloc-Runs :
    (c : Client)
    → IsListed c
    → c.client_closed ≡ true
    → c.socks_closed ≡ true
    → Runs (λ d. d.live ≡ false) (client_dealloc c)
unfolding client_dealloc
client_dealloc-Runs c l h g =
    let counted : ltb 0 c.num_clients ≡ true = ground (arith, l.counted) in
    rw (l.alive, h, g, counted) (Runs-some _ refl)

pub require-Runs :
    {A : Type 0} {P : A → Type 0} (b : Bool) (m : Option A)
    → b ≡ true
    → Runs P m
    → Runs P (require b m)
require-Runs true m h r = r
require-Runs false m h r = absurd (ground arith)

-- The SOCKS side of a client whose other side is closed.
pub free_socks_last :
    (fuel : ℕ) (k : Lwip) (c : Client)
    → IsListed c
    → c.client_closed ≡ true
    → c.socks_closed ≡ false
    → Runs (λ d. d.live ≡ false) (client_free_socks (suc fuel) k c)
unfolding client_free_socks
free_socks_last fuel k c l h g = require-Runs (not c.socks_closed) _ (ground (arith, g)) (
    Runs-if (c.socks_up && ((is_some c.recv_buf || ltb 0 c.recv_pending) && not c.client_closed)) _
      _ (λ e. absurd (ground (arith, e, h)))
      λ _.
        Runs-if (not c.client_closed) _ _ (λ e. absurd (ground (arith, e, h)))
          λ _.
            client_dealloc-Runs (with_socks_closed c)
              (record { alive = l.alive; counted = l.counted; room = l.room }) h refl)

pub client_handle_freed_client-Runs :
    (fuel : ℕ) (k : Lwip) (c : Client)
    → IsListed c
    → c.client_closed ≡ false
    → Runs Fares (client_handle_freed_client (suc (suc fuel)) k c)
unfolding client_handle_freed_client
client_handle_freed_client-Runs fuel k c l h =
    let listed : IsListed (with_client_closed c) = record {
      alive = l.alive;
      counted = l.counted;
      room = l.room;
    } in
    require-Runs (not c.client_closed) _ (ground (arith, h)) (
      Runs-if (not (is_empty c.buf) && not c.socks_closed) _ _
        (λ e. Runs-some (with_client_closed c) (
          inr (record {
            alive = l.alive;
            counted = l.counted;
            room = l.room;
            one_open = ground (arith, e);
            recv_open = λ _ f. absurd (ground (arith, f));
            sent_open = λ _ f. absurd (ground (arith, f));
            waiting = λ f. absurd (ground (arith, f));
            owes_client = λ f. absurd (ground (arith, e, f));
            owes_socks = λ _. is_empty-pos c.buf (ground (arith, e));
          })))
        λ _.
          Runs-if (not c.socks_closed) _ _
            (λ e.
              Runs-map (λ d. inl)
                (free_socks_last fuel k (with_client_closed c) listed refl (ground (arith, e))))
            (λ e.
              Runs-map (λ d. inl)
                (client_dealloc-Runs (with_client_closed c) listed refl (ground (arith, e)))))

pub close_pcb-IsListed :
    (k : Lwip) (c : Client) → IsListed c → IsListed (close_pcb k (remove_callbacks c))
close_pcb-IsListed k c l = elim (Bool-cases k.close_fails) [
  | inl e ↦ rw e (record { alive = l.alive; counted = l.counted; room = l.room })
  | inr e ↦ rw e (record { alive = l.alive; counted = l.counted; room = l.room })
]

pub close_pcb-open :
    (k : Lwip) (c : Client) → (close_pcb k (remove_callbacks c)).client_closed ≡ c.client_closed
close_pcb-open k c = elim (Bool-cases k.close_fails) [ inl e ↦ rw e refl | inr e ↦ rw e refl ]

pub client_free_client-Runs :
    (fuel : ℕ) (k : Lwip) (c : Client)
    → IsListed c
    → c.client_closed ≡ false
    → Runs Fares (client_free_client (suc (suc (suc fuel))) k c)
unfolding client_free_client
client_free_client-Runs fuel k c l h = require-Runs (not c.client_closed) _ (ground (arith, h)) (
    client_handle_freed_client-Runs fuel k (close_pcb k (remove_callbacks c))
      (close_pcb-IsListed k c l) (close_pcb-open k c ∙ h))

-- Closing the SOCKS side, of a client that may owe that side nothing.
pub record IsHalf (c : Client) : Type 0 where
  pub listed : IsListed c
  pub socks_open : c.socks_closed ≡ false
  pub sent_open : c.sent_on ≡ true → c.client_closed ≡ false → c.socks_up ≡ true
  pub waiting :
      c.client_closed ≡ false
      → c.socks_up ≡ true
      → (b : Bytes) → c.recv_buf ≡ some b
      → (c.recv_waiting ≡ true) × (c.recv_sent < length b) × (0 < c.recv_pending)

pub sound-IsHalf : (c : Client) → IsSound c → c.socks_closed ≡ false → IsHalf c
sound-IsHalf c s h = record {
  listed = sound-IsListed c s;
  socks_open = h;
  sent_open = s.sent_open;
  waiting = s.waiting;
}

pub client_free_socks-Runs :
    (fuel : ℕ) (k : Lwip) (c : Client)
    → IsHalf c
    → Runs Fares (client_free_socks (suc (suc (suc (suc fuel)))) k c)
unfolding client_free_socks
client_free_socks-Runs fuel k c s =
    let l = s.listed in
    let listed : IsListed (with_socks_closed c) = record {
      alive = l.alive;
      counted = l.counted;
      room = l.room;
    } in
    require-Runs (not c.socks_closed) _ (ground (arith, s.socks_open)) (
      Runs-if (c.socks_up && ((is_some c.recv_buf || ltb 0 c.recv_pending) && not c.client_closed))
        _ _
        (λ e. Runs-some (with_socks_closed c) (
          inr (record {
            alive = l.alive;
            counted = l.counted;
            room = l.room;
            one_open = ground (arith, e);
            recv_open = λ f g. absurd (ground (arith, e, f, g));
            sent_open = s.sent_open;
            waiting = s.waiting;
            owes_client = λ _. (ground (arith, e), ground (arith, e));
            owes_socks = λ f. absurd (ground (arith, e, f));
          })))
        λ _.
          Runs-if (not c.client_closed) _ _
            (λ e. client_free_client-Runs fuel k (with_socks_closed c) listed (ground (arith, e)))
            (λ e.
              Runs-map (λ d. inl)
                (client_dealloc-Runs (with_socks_closed c) listed (ground (arith, e)) refl)))

pub client_abort_client-Runs :
    (k : Lwip) (c : Client)
    → IsListed c
    → c.client_closed ≡ false
    → Runs Fares (client_abort_client k c)
unfolding client_abort_client
client_abort_client-Runs k c l h = require-Runs (not c.client_closed) _ (ground (arith, h)) (
    client_handle_freed_client-Runs 2 k (call tcp_abort (remove_callbacks c))
      (record { alive = l.alive; counted = l.counted; room = l.room }) h)

pub murder_client-closed : (c : Client) → (murder_client c).client_closed ≡ true
murder_client-closed c = elim (Bool-cases c.client_closed) [ inl e ↦ rw e refl | inr e ↦ rw e refl ]

pub murder_socks-closed : (c : Client) → (murder_socks c).socks_closed ≡ true
murder_socks-closed c = elim (Bool-cases c.socks_closed) [ inl e ↦ rw e refl | inr e ↦ rw e refl ]

pub murder_socks-client : (c : Client) → (murder_socks c).client_closed ≡ c.client_closed
murder_socks-client c = elim (Bool-cases c.socks_closed) [ inl e ↦ rw e refl | inr e ↦ rw e refl ]

pub murder_client-IsListed : (c : Client) → IsListed c → IsListed (murder_client c)
murder_client-IsListed c l = elim (Bool-cases c.client_closed) [
  | inl e ↦ rw e (record { alive = l.alive; counted = l.counted; room = l.room })
  | inr e ↦ rw e (record { alive = l.alive; counted = l.counted; room = l.room })
]

pub murder_socks-IsListed : (c : Client) → IsListed c → IsListed (murder_socks c)
murder_socks-IsListed c l = elim (Bool-cases c.socks_closed) [
  | inl e ↦ rw e (record { alive = l.alive; counted = l.counted; room = l.room })
  | inr e ↦ rw e (record { alive = l.alive; counted = l.counted; room = l.room })
]

-- `client_murder`, for the clients that are left when the event loop has ended, frees any client that
-- is in the list, whichever of its sides are closed.
pub client_murder-Runs : (c : Client) → IsListed c → Runs (λ d. d.live ≡ false) (client_murder c)
unfolding client_murder
client_murder-Runs c l =
    client_dealloc-Runs (murder_socks (murder_client c))
      (murder_socks-IsListed (murder_client c) (murder_client-IsListed c l))
      (murder_socks-client (murder_client c) ∙ murder_client-closed c)
      (murder_socks-closed (murder_client c))
