-- ===== src/Tun2socks/Drained.antt =====
-- tun2socks.c: a client whose SOCKS server has closed the connection, while the device confirms the rest.
use matador.Base.{
  ℕ, suc, ◌∙◌, ◌-◌, ◌≡◌, ◌<◌, ◌≤◌, refl, arith, true, false, not, ◌&&◌, Option, none, some, List,
  [], ◌∷◌, ltb, leb, ◌==◌, ◌>>=◌, Bool-cases, inl, inr, Runs, Runs-some, Runs-bind, Runs-if,
  Runs-map,
}
use matador.Memory.{Bytes}
use matador.Tun2socks.{Client, Lwip, is_empty, is_some}
use matador.Tun2socks.Closing.{
  with_client_closed, remove_callbacks, close_pcb, client_handle_freed_client, client_free_client,
}
use matador.Tun2socks.Relay.{client_sent_func, after_sent}
use matador.Tun2socks.Events.{sent, step}
use matador.Tun2socks.Sound.{IsSound}
use matador.Tun2socks.TakenDown.{
  IsListed, sound-IsListed, client_dealloc-Runs, close_pcb-IsListed, close_pcb-open, require-Runs,
}
use matador.Tun2socks.Flushed.{total, AllPositive}

-- The device confirms so many bytes, again and again.
abbrev pub drain : Lwip → List ℕ → Client → Option Client
drain k [] c = some c
drain k (n ∷ ns) c = step k (sent n) c >>= drain k ns

pub record IsDraining (c : Client) : Type 0 where
  pub listed : IsListed c
  pub client_open : c.client_closed ≡ false
  pub closed : c.socks_closed ≡ true
  pub up : c.socks_up ≡ true
  pub all_taken : c.recv_buf ≡ none

close_pcb-socks_closed :
    (k : Lwip) (c : Client) → (close_pcb k (remove_callbacks c)).socks_closed ≡ c.socks_closed
close_pcb-socks_closed k c = elim (Bool-cases k.close_fails) [
  | inl e ↦ rw e refl
  | inr e ↦ rw e refl
]

-- The side of the device is the last one.
free_client_last :
    (fuel : ℕ) (k : Lwip) (c : Client)
    → IsListed c
    → c.client_closed ≡ false
    → c.socks_closed ≡ true
    → Runs (λ d. d.live ≡ false) (client_free_client (suc (suc fuel)) k c)
unfolding client_handle_freed_client
free_client_last fuel k c l is_open closed =
    let d = close_pcb k (remove_callbacks c) in
    let d_listed = close_pcb-IsListed k c l in
    let d_closed = close_pcb-socks_closed k c ∙ closed in
    require-Runs (not c.client_closed) _ (ground (arith, is_open)) (
      require-Runs (not d.client_closed) _ (ground (arith, close_pcb-open k c, is_open)) (
        Runs-if (not (is_empty d.buf) && not d.socks_closed) _ _
          (λ h. absurd (ground (arith, h, d_closed)))
          λ _.
            Runs-if (not d.socks_closed) _ _ (λ h. absurd (ground (arith, h, d_closed)))
              λ _.
                client_dealloc-Runs (with_client_closed d)
                  (record {
                    alive = d_listed.alive;
                    counted = d_listed.counted;
                    room = d_listed.room;
                  })
                  refl d_closed))

-- What a confirmation leaves: a client that is freed, or one that waits for the rest.
abbrev Drains : ℕ → Client → Client → Type 0
Drains n c d =
    (n ≡ c.recv_pending → d.live ≡ false)
    × (n < c.recv_pending → IsDraining d × (d.recv_pending ≡ c.recv_pending - n))

after_sent-Drains :
    (k : Lwip) (n : ℕ) (c : Client) (o : Option Bytes)
    → IsDraining c
    → n ≤ c.recv_pending
    → c.recv_buf ≡ o
    → Runs (Drains n c) (after_sent k (record c { recv_pending = c.recv_pending - n }) o)
after_sent-Drains k n c (some b) i within e = absurd (ground (arith, i.all_taken, e))
after_sent-Drains k n c none i within e =
    let left : Client = record c { recv_pending = c.recv_pending - n } in
    let l : IsListed left = record {
      alive = i.listed.alive;
      counted = i.listed.counted;
      room = i.listed.room;
    } in
    Runs-if (left.socks_closed && left.recv_pending == 0) _ _
      (λ none_left.
        Runs-map (λ d freed. (λ _. freed, λ less. absurd (ground (arith, less, none_left))))
          (free_client_last 2 k left l i.client_open i.closed))
      λ some_left. Runs-some _ (
        λ all. absurd (ground (arith, all, some_left, i.closed)),
        λ _. (
          record {
            listed = l;
            client_open = i.client_open;
            closed = i.closed;
            up = i.up;
            all_taken = i.all_taken;
          },
          refl,
        ),
      )

sent-Drains :
    (k : Lwip) (n : ℕ) (c : Client)
    → IsDraining c
    → 0 < n
    → n ≤ c.recv_pending
    → Runs (Drains n c) (client_sent_func k n c)
unfolding client_sent_func
sent-Drains k n c i pos within =
    require-Runs (not c.client_closed && (c.socks_up && (ltb 0 n && leb n c.recv_pending))) _
      (ground (arith, i.client_open, i.up, pos, within))
      (after_sent-Drains k n c c.recv_buf i within refl)

drain-Runs :
    (k : Lwip) (ns : List ℕ) (c : Client)
    → IsDraining c
    → 0 < c.recv_pending
    → AllPositive ns
    → total ns ≡ c.recv_pending
    → Runs (λ d. d.live ≡ false) (drain k ns c)
unfolding step
drain-Runs k [] c i some_bytes p e = absurd (omega (arith, some_bytes, e))
drain-Runs k (n ∷ []) c i some_bytes p e =
    Runs-bind _ (sent-Drains k n c i p.0 (omega (arith, e)))
      λ d _ q. Runs-some d (q.0 (omega (arith, e)))
drain-Runs k (n ∷ m ∷ ns) c i some_bytes p e =
    Runs-bind (drain k (m ∷ ns)) (sent-Drains k n c i p.0 (omega (arith, e))) λ d _ q.
      let r = q.1 (omega (arith, e, p.1.0)) in
      drain-Runs k (m ∷ ns) d r.0 (omega (arith, r.1, e, p.1.0)) p.1 (omega (arith, r.1, e))

-- A client whose SOCKS server has closed the connection, and all of whose bytes lwIP has taken, lives on
-- only as long as the device has not confirmed them: when it has, in whatever portions, the client is
-- freed.
pub drain-frees :
    (k : Lwip) (ns : List ℕ) (c : Client)
    → IsSound c
    → c.socks_closed ≡ true
    → c.recv_buf ≡ none
    → AllPositive ns
    → total ns ≡ c.recv_pending
    → Runs (λ d. d.live ≡ false) (drain k ns c)
drain-frees k ns c s closed all_taken p e =
    let owes = s.owes_client closed in
    let nothing_left : is_some c.recv_buf ≡ false = rw all_taken refl in
    drain-Runs k ns c
      (record {
        listed = sound-IsListed c s;
        client_open = ground (arith, s.one_open, closed);
        closed = closed;
        up = owes.0;
        all_taken = all_taken;
      })
      (ground (arith, owes.1, nothing_left)) p e
