-- ===== src/Tun2socks/Holds.antt =====
-- tun2socks.c: what the handlers leave in the buffer of a client, and in the counter `num_clients`.
use matador.Base.{
  ℕ, zero, suc, ◌+◌, ◌≡◌, refl, ap, ◌∙◌, Bool, true, false, not, ◌&&◌, ◌||◌, Option, ltb,
  if◌then◌else◌, Bool-cases, inl, inr, Ensures, Ensures-none, Ensures-some, Ensures-if, arith,
}
use matador.Memory.{Bytes}
use matador.Tun2socks.{Client, Lwip, require, is_some, is_empty}
use matador.Tun2socks.Closing.{
  with_client_closed, with_socks_closed, client_dealloc, remove_callbacks, close_pcb,
  client_handle_freed_client, client_free_client, client_free_socks,
}

-- The counter, with the client itself added when it is freed.
abbrev pub tally : Client → ℕ
tally c = c.num_clients + (if c.live then 0 else 1)

-- What a handler leaves alone: the counter, what the SOCKS client has to send, and whether it is up.
abbrev pub Mark : Type 0
Mark = ℕ × (Bytes × Bool)

abbrev pub mark : Client → Mark
mark c = (tally c, (c.sending, c.socks_up))

-- What there is to send once the buffer, if it is not empty, has been handed to the SOCKS client.
abbrev pub handed_over : Client → Bytes
handed_over c = if is_empty c.buf then c.sending else c.buf

-- The buffer holds `b`, and the rest is as in `t`.
pub record Holds (b : Bytes) (t : Mark) (c : Client) : Type 0 where
  pub held : c.buf ≡ b
  pub marked : mark c ≡ t

pub require-Ensures :
    {A : Type 0} {P : A → Type 0} (b : Bool) (m : Option A) → Ensures P m → Ensures P (require b m)
require-Ensures true m h = h
require-Ensures false m h = Ensures-none

pub client_dealloc-Holds : (c : Client) → Ensures (Holds c.buf (mark c)) (client_dealloc c)
unfolding client_dealloc
client_dealloc-Holds c =
    Ensures-if (c.live && (c.client_closed && (c.socks_closed && ltb 0 c.num_clients))) _ _
      (λ h. Ensures-some _ (record {
        held = refl;
        marked = ap (λ n. (n, (c.sending, c.socks_up))) (ground (arith, h));
      }))
      λ _. Ensures-none

pub close_pcb-Holds :
    (k : Lwip) (c : Client) → Holds c.buf (mark c) (close_pcb k (remove_callbacks c))
close_pcb-Holds k c = elim (Bool-cases k.close_fails) [
  | inl e ↦ rw e (record { held = refl; marked = refl })
  | inr e ↦ rw e (record { held = refl; marked = refl })
]

pub record ClosersHold (fuel : ℕ) (k : Lwip) : Type 0 where
  pub freed : (c : Client) → Ensures (Holds c.buf (mark c)) (client_handle_freed_client fuel k c)
  pub free_client : (c : Client) → Ensures (Holds c.buf (mark c)) (client_free_client fuel k c)
  pub free_socks : (c : Client) → Ensures (Holds c.buf (mark c)) (client_free_socks fuel k c)

pub rest-Holds :
    {m : Option Client} (b : Bytes) (t : Mark) (c : Client)
    → Holds b t c
    → Ensures (Holds c.buf (mark c)) m
    → Ensures (Holds b t) m
rest-Holds b t c g h = record {
  at = λ d f. record { held = (h.at d f).held ∙ g.held; marked = (h.at d f).marked ∙ g.marked };
}

pub closers-Hold : (fuel : ℕ) (k : Lwip) → ClosersHold fuel k
unfolding client_handle_freed_client
closers-Hold zero k = record {
  freed = λ c. Ensures-none;
  free_client = λ c. Ensures-none;
  free_socks = λ c. Ensures-none;
}
closers-Hold (suc fuel) k =
    let h = closers-Hold fuel k in
    record {
      freed = λ c. require-Ensures (not c.client_closed) _ (
          Ensures-if (not (is_empty c.buf) && not c.socks_closed) _ _
            (λ _. Ensures-some _ (record { held = refl; marked = refl }))
            λ _.
              Ensures-if (not c.socks_closed) _ _ (λ _. h.free_socks (with_client_closed c))
                (λ _. client_dealloc-Holds (with_client_closed c)));
      free_client = λ c. require-Ensures (not c.client_closed) _ (
          rest-Holds c.buf (mark c) _ (close_pcb-Holds k c)
            (h.freed (close_pcb k (remove_callbacks c))));
      free_socks = λ c. require-Ensures (not c.socks_closed) _ (
          Ensures-if
            (c.socks_up && ((is_some c.recv_buf || ltb 0 c.recv_pending) && not c.client_closed)) _
            _ (λ _. Ensures-some _ (record { held = refl; marked = refl }))
            λ _.
              Ensures-if (not c.client_closed) _ _ (λ _. h.free_client (with_socks_closed c))
                (λ _. client_dealloc-Holds (with_socks_closed c)));
    }
