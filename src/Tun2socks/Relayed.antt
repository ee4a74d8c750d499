-- ===== src/Tun2socks/Relayed.antt =====
-- tun2socks.c: what the handlers that relay data leave as it was.
use matador.Base.{
  ℕ, zero, suc, ◌-◌, refl, Bool, true, false, not, ◌&&◌, Option, none, some, length, ltb, ◌==◌,
  if◌then◌else◌, Bool-cases, inl, inr, Ensures, Ensures-none, Ensures-some, Ensures-if,
  Ensures-bind,
}
use Prim.Native.Nat.{min}
use matador.Memory.{Bytes}
use matador.Tun2socks.{
  Client, Lwip, Written, err_ok, err_mem, err_other, call, is_some, is_empty, tcp_abort, tcp_output,
  tcp_recved,
}
use matador.Tun2socks.Closing.{remove_callbacks, client_abort_client, depth}
use matador.Tun2socks.Relay.{
  client_send_to_socks, send_more, client_socks_recv_initiate, Queue, queued, write_failed, wrote,
  after_write, queue_loop, Sent, aborted, up_still, abort, send_out_end, client_socks_recv_send_out,
  receive_more, client_socks_recv_handler_done, sent_more, after_sent,
}
use matador.Tun2socks.Events.{start_sending, socks_event_up}
use matador.Tun2socks.Holds.{
  tally, Mark, mark, handed_over, Holds, require-Ensures, rest-Holds, closers-Hold,
}

abbrev pub QueueHolds : Bytes → Mark → Queue → Type 0
QueueHolds b t (queued c) = Holds b t c
QueueHolds b t (write_failed c) = Holds b t c

abbrev pub SentHolds : Bytes → Mark → Sent → Type 0
SentHolds b t (aborted c) = Holds b t c
SentHolds b t (up_still c) = Holds b t c

pub after_write-Holds :
    (w : Written) (c : Client) (again : Client → Option Queue) (c' : Client)
    → Ensures (QueueHolds c.buf (mark c)) (again c')
    → Ensures (QueueHolds c.buf (mark c)) (after_write w c again c')
after_write-Holds err_ok c again c' h = h
after_write-Holds err_mem c again c' h = Ensures-some _ (record { held = refl; marked = refl })
after_write-Holds err_other c again c' h = Ensures-some _ (record { held = refl; marked = refl })

pub queue_loop-Holds :
    (fuel i : ℕ) (k : Lwip) (b : Bytes) (c : Client)
    → Ensures (QueueHolds c.buf (mark c)) (queue_loop fuel i k b c)
unfolding queue_loop
queue_loop-Holds zero i k b c = Ensures-none
queue_loop-Holds (suc fuel) i k b c =
    let n = min (length b - c.recv_sent) (k.sndbuf i) in
    let c₁ = wrote b n c in
    Ensures-if (n == 0) _ _ (λ _. Ensures-some _ (record { held = refl; marked = refl }))
      λ _.
        after_write-Holds (k.write i) c
          (λ c'.
            if ltb c'.recv_sent (length b)
            then queue_loop fuel (suc i) k b c'
            else some (queued c'))
          c₁
          (Ensures-if (ltb c₁.recv_sent (length b)) _ _ (λ _. queue_loop-Holds fuel (suc i) k b c₁)
            (λ _. Ensures-some _ (record { held = refl; marked = refl })))

pub abort-Holds : (k : Lwip) (c : Client) → Ensures (SentHolds c.buf (mark c)) (abort k c)
unfolding client_abort_client
abort-Holds k c = Ensures-bind (client_abort_client k c) _ λ d e. Ensures-some (aborted d) (
    (require-Ensures (not c.client_closed) _
        ((closers-Hold depth k).freed (call tcp_abort (remove_callbacks c)))).at
      d e)

pub send_out_end-Holds :
    (k : Lwip) (b : Bytes) (x : Bytes) (t : Mark) (q : Queue)
    → QueueHolds x t q
    → Ensures (SentHolds x t) (send_out_end k b q)
unfolding send_out_end
send_out_end-Holds k b x t (write_failed c) h = rw (← h.held, ← h.marked) (abort-Holds k c)
send_out_end-Holds k b x t (queued c) h =
    rw (← h.held, ← h.marked)
      (Ensures-if k.output_fails _ _ (λ _. abort-Holds k (call tcp_output c))
        λ _.
          Ensures-if (ltb c.recv_sent (length b)) _ _
            (λ _.
              Ensures-if (c.recv_pending == 0) _ _ (λ _. abort-Holds k (call tcp_output c))
                λ _. Ensures-some _ (record { held = refl; marked = refl }))
            (λ _. Ensures-some _ (record { held = refl; marked = refl })))

pub send_out-Holds :
    (k : Lwip) (b : Bytes) (c : Client)
    → Ensures (SentHolds c.buf (mark c)) (client_socks_recv_send_out k b c)
unfolding client_socks_recv_send_out
send_out-Holds k b c = require-Ensures _ _ (
    Ensures-bind (queue_loop (suc (length b)) 0 k b c) _ λ q e.
      send_out_end-Holds k b c.buf (mark c) q ((queue_loop-Holds (suc (length b)) 0 k b c).at q e))

pub initiate-Holds : (c : Client) → Ensures (Holds c.buf (mark c)) (client_socks_recv_initiate c)
unfolding client_socks_recv_initiate
initiate-Holds c = require-Ensures _ _ (Ensures-some _ (record { held = refl; marked = refl }))

pub receive_more-Holds :
    (b : Bytes) (t : Mark) (r : Sent) → SentHolds b t r → Ensures (Holds b t) (receive_more r)
receive_more-Holds b t (aborted c) h = Ensures-some c h
receive_more-Holds b t (up_still c) h =
    Ensures-if (is_some c.recv_buf) _ _ (λ _. Ensures-some c h)
      (λ _. rest-Holds b t c h (initiate-Holds c))

pub sent_more-Holds :
    (b : Bytes) (t : Mark) (r : Sent) → SentHolds b t r → Ensures (Holds b t) (sent_more r)
sent_more-Holds b t (aborted c) h = Ensures-some c h
sent_more-Holds b t (up_still c) h = require-Ensures (ltb 0 c.recv_pending) _ (
    Ensures-if (not (is_some c.recv_buf) && not c.socks_closed) _ _
      (λ _. rest-Holds b t c h (initiate-Holds c)) (λ _. Ensures-some c h))

pub after_sent-Holds :
    (k : Lwip) (c : Client) (o : Option Bytes) → Ensures (Holds c.buf (mark c)) (after_sent k c o)
after_sent-Holds k c none =
    Ensures-if (c.socks_closed && c.recv_pending == 0) _ _
      (λ _. (closers-Hold depth k).free_client c)
      (λ _. Ensures-some c (record { held = refl; marked = refl }))
after_sent-Holds k c (some b) = require-Ensures (c.recv_waiting && ltb c.recv_sent (length b)) _ (
    Ensures-bind (client_socks_recv_send_out k b (record c { recv_waiting = false })) _ λ r e.
      sent_more-Holds c.buf (mark c) r
        ((send_out-Holds k b (record c { recv_waiting = false })).at r e))

pub received-Holds :
    (k : Lwip) (b : Bytes) (c : Client)
    → Ensures (Holds c.buf (mark c)) (client_socks_recv_handler_done k b c)
unfolding client_socks_recv_handler_done
received-Holds k b c =
    let c₁ : Client = record c { recv_buf = some b; recv_sent = 0; recv_waiting = false } in
    require-Ensures _ _ (
      Ensures-if c.client_closed _ _ (λ _. Ensures-some c (record { held = refl; marked = refl }))
        λ _.
          Ensures-bind (client_socks_recv_send_out k b c₁) _
            λ r e. receive_more-Holds c.buf (mark c) r ((send_out-Holds k b c₁).at r e))

pub send_to_socks-Holds :
    (c : Client) → Ensures (Holds c.buf (tally c, (c.buf, c.socks_up))) (client_send_to_socks c)
unfolding client_send_to_socks
send_to_socks-Holds c = require-Ensures _ _ (Ensures-some _ (record { held = refl; marked = refl }))

pub up-Holds :
    (c : Client) → Ensures (Holds c.buf (tally c, (handed_over c, true))) (socks_event_up c)
unfolding socks_event_up
up-Holds c =
    let c₁ : Client = record c {
      recv_buf = none;
      recv_pending = 0;
      sent_on = not c.client_closed;
      socks_up = true;
    } in
    require-Ensures _ _ (
      Ensures-bind (start_sending c₁) _ λ d e.
        let h =
          (elim (Bool-cases (is_empty c.buf))
              as (λ _. Ensures (Holds c.buf (tally c, (handed_over c, true))) (start_sending c₁)) [
                | inl e ↦ rw e (Ensures-some c₁ (record { held = refl; marked = refl }))
                | inr e ↦ rw e (send_to_socks-Holds c₁)
              ]).at
            d e in
        Ensures-if d.client_closed _ _ (λ _. Ensures-some d h)
          (λ _. rest-Holds c.buf (tally c, (handed_over c, true)) d h (initiate-Holds d)))

pub send_more-Holds :
    (k : Lwip) (c : Client)
    → Ensures (Holds c.buf (tally c, (handed_over c, c.socks_up))) (send_more k c)
send_more-Holds k c = elim (Bool-cases (is_empty c.buf)) [
  | inl e ↦ rw e (
      Ensures-if c.client_closed _ _ (λ _. (closers-Hold depth k).free_socks c)
        (λ _. Ensures-some c (record { held = refl; marked = refl })))
  | inr e ↦ rw e (Ensures-some _ (record { held = refl; marked = refl }))
]

pub confirmed-Holds :
    (closed : Bool) (n : ℕ) (c : Client)
    → Holds c.buf (mark c) (if closed then c else call (tcp_recved n) c)
confirmed-Holds true n c = record { held = refl; marked = refl }
confirmed-Holds false n c = record { held = refl; marked = refl }

-- What is left of the buffer goes to the SOCKS client, whether `tcp_recved` was called before or not.
pub after_confirmed :
    (k : Lwip) (closed : Bool) (n : ℕ) (c : Client)
    → Ensures
        (Holds c.buf (tally c, (handed_over c, c.socks_up)))
        (send_more k (if closed then c else call (tcp_recved n) c))
after_confirmed k true n c = send_more-Holds k c
after_confirmed k false n c = send_more-Holds k (call (tcp_recved n) c)
