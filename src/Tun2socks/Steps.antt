-- ===== src/Tun2socks/Steps.antt =====
-- tun2socks.c: the events that can come to a client, and the callbacks that they run.
use matador.Base.{
  ℕ, ◌-◌, ◌≡◌, ◌<◌, refl, sym, ◌∙◌, arith, Bool, true, false, not, ◌&&◌, Option, none, some, length,
  ltb, leb, ◌==◌, ◌⊎◌, inl, inr, Runs, Runs-some, Runs-if, Runs-bind,
}
use matador.Memory.{Bytes}
use matador.Tun2socks.{Client, Lwip, is_some, is_empty, client_socks_recv_buf_size}
use matador.Tun2socks.Closing.{client_err_func}
use matador.Tun2socks.Relay.{
  Sent, aborted, up_still, client_socks_recv_send_out, receive_more, client_socks_recv_handler_done,
  sent_more, after_sent, client_sent_func,
}
use matador.Tun2socks.Events.{
  Event, recv, err, socks_error, socks_is_up, socks_went_down, socks_sent, socks_received, sent,
  step,
}
use matador.Tun2socks.Sound.{IsSound, Fares, IsEnabled}
use matador.Tun2socks.TakenDown.{
  IsListed, sound-IsListed, require-Runs, client_handle_freed_client-Runs, client_free_client-Runs,
  sound-IsHalf, client_free_socks-Runs,
}
use matador.Tun2socks.Queued.{HasSent, SendsOut, client_socks_recv_send_out-Runs}
use mathlib.Core.Path.{subst}
use mathlib.Core.Option.{some-injective}
use matador.Tun2socks.ComesUp.{socks_event_up-Runs}
use matador.Tun2socks.Keeps.{
  not_empty, client_recv_func-Runs, client_socks_send_handler_done-Runs,
  client_socks_recv_initiate-Runs,
}

-- What `client_socks_recv_send_out` leaves of a client that was sound but for its receive buffer.
record IsSending (c : Client) (b : Bytes) : Type 0 where
  listed : IsListed c
  recv_open : c.recv_on ≡ true → c.client_closed ≡ false → c.socks_closed ≡ false
  client_open : c.client_closed ≡ false
  up : c.socks_up ≡ true
  kept : c.recv_buf ≡ some b
  some_left : c.recv_sent < length b
  ready : c.recv_waiting ≡ false

rest_waits :
    (rest : Option Bytes) (waits : Bool) {n p : ℕ} (b d : Bytes)
    → (rest ≡ none) ⊎ ((rest ≡ some b) × (waits ≡ true) × (n < length b))
    → 0 < p
    → rest ≡ some d
    → (waits ≡ true) × (n < length d) × (0 < p)
rest_waits rest waits b d (inl e) h f = absurd (ground (arith, e, f))
rest_waits rest waits {n = n} b d (inr q) h f =
    (q.1, subst (λ x. n < length x) (some-injective b d (sym q.0 ∙ f)) q.2, h)

sent_out-IsSound : (b : Bytes) (c c' : Client) → IsSending c b → HasSent b c c' → IsSound c'
sent_out-IsSound b c c' z m = rw m.c'_is (record {
  alive = z.listed.alive;
  counted = z.listed.counted;
  room = z.listed.room;
  one_open = ground (arith, z.client_open);
  recv_open = z.recv_open;
  sent_open = λ _ _. z.up;
  waiting = λ _ _ d e. rest_waits m.rest m.waits b d m.rest_is m.confirmed_later e;
  owes_client = λ _. (z.up, ground (arith, m.confirmed_later));
  owes_socks = λ f. absurd (ground (arith, f, z.client_open));
})

sent_out-fields :
    (b : Bytes) (c c' : Client)
    → HasSent b c c'
    → (c'.client_closed ≡ c.client_closed)
      × (c'.socks_closed ≡ c.socks_closed)
      × (c'.socks_up ≡ c.socks_up)
      × (0 < c'.recv_pending)
sent_out-fields b c c' m = rw m.c'_is (refl, refl, refl, m.confirmed_later)

is_some-none : (o : Option Bytes) → is_some o ≡ false → o ≡ none
is_some-none none h = refl
is_some-none (some b) h = absurd (ground arith)

receive_more-Runs :
    (b : Bytes) (c : Client) (r : Sent)
    → IsSending c b
    → c.socks_closed ≡ false
    → SendsOut b c r
    → Runs Fares (receive_more r)
receive_more-Runs b c (aborted c') z h f = Runs-some c' f
receive_more-Runs b c (up_still c') z h m =
    let q = sent_out-fields b c c' m in
    let s = sent_out-IsSound b c c' z m in
    Runs-if (is_some c'.recv_buf) _ _ (λ _. Runs-some c' (inr s))
      λ free.
        client_socks_recv_initiate-Runs c' s (q.0 ∙ z.client_open) (q.1 ∙ h) (q.2 ∙ z.up)
          (is_some-none c'.recv_buf free)

sent_more-Runs :
    (b : Bytes) (c : Client) (r : Sent) → IsSending c b → SendsOut b c r → Runs Fares (sent_more r)
sent_more-Runs b c (aborted c') z f = Runs-some c' f
sent_more-Runs b c (up_still c') z m =
    let q = sent_out-fields b c c' m in
    let s = sent_out-IsSound b c c' z m in
    require-Runs (ltb 0 c'.recv_pending) _ (ground (arith, q.3)) (
      Runs-if (not (is_some c'.recv_buf) && not c'.socks_closed) _ _
        (λ e.
          client_socks_recv_initiate-Runs c' s (q.0 ∙ z.client_open) (ground (arith, e))
            (q.2 ∙ z.up) (is_some-none c'.recv_buf (ground (arith, e))))
        (λ _. Runs-some c' (inr s)))

send_out-Runs :
    (k : Lwip) (b : Bytes) (c : Client)
    → IsSending c b
    → Runs (SendsOut b c) (client_socks_recv_send_out k b c)
send_out-Runs k b c z =
    client_socks_recv_send_out-Runs k b c z.listed z.client_open z.kept z.some_left z.up z.ready

-- The state in which received bytes are handed over.
received-IsSending :
    (b : Bytes) (c : Client)
    → IsSound c
    → c.client_closed ≡ false
    → c.socks_up ≡ true
    → 0 < length b
    → IsSending (record c { recv_buf = some b; recv_sent = 0; recv_waiting = false }) b
received-IsSending b c s h up some_bytes = record {
  listed = record { alive = s.alive; counted = s.counted; room = s.room };
  recv_open = s.recv_open;
  client_open = h;
  up = up;
  kept = refl;
  some_left = some_bytes;
  ready = refl;
}

client_socks_recv_handler_done-Runs :
    (k : Lwip) (b : Bytes) (c : Client)
    → IsSound c
    → IsEnabled (socks_received b) c
    → Runs Fares (client_socks_recv_handler_done k b c)
unfolding client_socks_recv_handler_done
client_socks_recv_handler_done-Runs k b c s h =
    let idle : is_some c.recv_buf ≡ false = rw h.2 refl in
    require-Runs
      (not (is_empty b)
        && (leb (length b) client_socks_recv_buf_size
            && (not c.socks_closed && (c.socks_up && not (is_some c.recv_buf)))))
      _ (ground (arith, not_empty b h.3, h.4, h.0, h.1, idle))
      (Runs-if c.client_closed _ _ (λ _. Runs-some c (inr s))
        λ e.
          let z = received-IsSending b c s e h.1 h.3 in
          Runs-bind _ (send_out-Runs k b _ z) λ r _ p. receive_more-Runs b _ r z h.0 p)

-- A confirmation of `n` bytes.
abbrev confirmed : ℕ → Client → Client
confirmed n c = record c { recv_pending = c.recv_pending - n }

resumed-IsSending :
    (n : ℕ) (b : Bytes) (c : Client)
    → IsSound c
    → c.client_closed ≡ false
    → c.socks_up ≡ true
    → c.recv_buf ≡ some b
    → IsSending (record (confirmed n c) { recv_waiting = false }) b
resumed-IsSending n b c s h up kept = record {
  listed = record { alive = s.alive; counted = s.counted; room = s.room };
  recv_open = s.recv_open;
  client_open = h;
  up = up;
  kept = kept;
  some_left = (s.waiting h up b kept).1;
  ready = refl;
}

after_sent-Runs :
    (k : Lwip) (n : ℕ) (c : Client) (o : Option Bytes)
    → IsSound c
    → c.client_closed ≡ false
    → c.socks_up ≡ true
    → c.recv_buf ≡ o
    → Runs Fares (after_sent k (confirmed n c) o)
after_sent-Runs k n c (some b) s h up kept =
    let w = s.waiting h up b kept in
    let z = resumed-IsSending n b c s h up kept in
    require-Runs (c.recv_waiting && ltb c.recv_sent (length b)) _ (ground (arith, w.0, w.1))
      (Runs-bind _ (send_out-Runs k b _ z) λ r _ p. sent_more-Runs b _ r z p)
after_sent-Runs k n c none s h up kept =
    Runs-if (c.socks_closed && c.recv_pending - n == 0) _ _
      (λ _.
        client_free_client-Runs 1 k (confirmed n c)
          (record { alive = s.alive; counted = s.counted; room = s.room }) h)
      λ e. Runs-some (confirmed n c) (
        inr (record {
          alive = s.alive;
          counted = s.counted;
          room = s.room;
          one_open = s.one_open;
          recv_open = s.recv_open;
          sent_open = s.sent_open;
          waiting = λ _ _ d f. absurd (ground (arith, kept, f));
          owes_client = λ f. (up, ground (arith, e, f));
          owes_socks = s.owes_socks;
        }))

-- A sound client: whatever event can come, its handler runs without a failed assertion, and the
-- client is sound behind it or has been freed.
pub step-Runs :
    (k : Lwip) (e : Event) (c : Client) → IsSound c → IsEnabled e c → Runs Fares (step k e c)
unfolding step
step-Runs k (recv p) c s h = client_recv_func-Runs k p c s h
step-Runs k err c s h =
    unfold client_err_func in
    (require-Runs (not c.client_closed) _ (ground (arith, h))
      (client_handle_freed_client-Runs 2 k c (sound-IsListed c s) h))
step-Runs k socks_error c s h =
    require-Runs (not c.socks_closed) _ (ground (arith, h))
      (client_free_socks-Runs 0 k c (sound-IsHalf c s h))
step-Runs k socks_is_up c s h = socks_event_up-Runs c s h.0 h.1
step-Runs k socks_went_down c s h =
    require-Runs (not c.socks_closed && c.socks_up) _ (ground (arith, h.0, h.1))
      (client_free_socks-Runs 0 k c (sound-IsHalf c s h.0))
step-Runs k (socks_sent n) c s h = client_socks_send_handler_done-Runs k n c s h
step-Runs k (socks_received b) c s h = client_socks_recv_handler_done-Runs k b c s h
step-Runs k (sent n) c s h =
    unfold client_sent_func in
    (require-Runs (not c.client_closed && (c.socks_up && (ltb 0 n && leb n c.recv_pending))) _
      (ground (arith, h.1, s.sent_open h.0 h.1, h.2, h.3))
      (after_sent-Runs k n c c.recv_buf s h.1 (s.sent_open h.0 h.1) refl))
