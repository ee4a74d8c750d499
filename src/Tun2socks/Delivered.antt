-- ===== src/Tun2socks/Delivered.antt =====
-- tun2socks.c: the bytes from the SOCKS server on their way to the device.
use matador.Base.{
  ℕ, zero, suc, ◌+◌, ◌-◌, ◌≡◌, ◌≤◌, refl, ◌∙◌, sym, ap, arith, true, false, not, ◌&&◌, Option, none,
  some, List, [], ◌∷◌, ◌++◌, append-nil, append_assoc, length, take, drop, ltb, ◌==◌, if◌then◌else◌,
  take-append-drop, Ensures, Ensures-none, Ensures-some, Ensures-if, Ensures-bind,
}
use Prim.Native.Nat.{min}
use matador.Memory.{Bytes}
use matador.Tun2socks.{
  Client, Lwip, Call, Written, err_ok, err_mem, err_other, tcp_write, tcp_output, call, is_some,
}
use matador.Tun2socks.Closing.{client_abort_client}
use matador.Tun2socks.Relay.{
  Queue, queued, write_failed, wrote, after_write, queue_loop, Sent, aborted, up_still, abort,
  send_out_end, client_socks_recv_send_out, receive_more, sent_more,
}
use matador.Tun2socks.Holds.{require-Ensures}
use matador.Tun2socks.Untouched.{
  written, written-append, written-call, Spares, abort-Spares, initiate-Spares,
}

-- What is left of `socks_recv_buf`.
abbrev pub rest : Option Bytes → ℕ → Bytes
rest none n = []
rest (some b) n = drop n b

-- `got` has come from the SOCKS server. While the connection of the device is open, lwIP has taken all
-- of it but what is left in the buffer; at any time it has taken the beginning.
pub record Delivers (got : Bytes) (c : Client) : Type 0 where
  pub open_is :
      c.client_closed ≡ false
      → c.socks_up ≡ true
      → got ≡ written c.calls ++ rest c.recv_buf c.recv_sent
  pub before : c.socks_up ≡ false → got ≡ written c.calls
  pub lost : Bytes
  pub begins : got ≡ written c.calls ++ lost

pub Spares-Delivers : (got : Bytes) (c d : Client) → Delivers got c → Spares c d → Delivers got d
Spares-Delivers got c d h s = record {
  open_is = λ is_open up.
      rw (s.same_written, s.same_buf, s.same_sent)
        (h.open_is (s.closes is_open) (sym s.same_up ∙ up));
  before = λ down. h.before (sym s.same_up ∙ down) ∙ sym s.same_written;
  lost = h.lost;
  begins = rw s.same_written h.begins;
}

pub Ensures-Spares-Delivers :
    {m : Option Client} (got : Bytes) (c : Client)
    → Delivers got c
    → Ensures (Spares c) m
    → Ensures (Delivers got) m
Ensures-Spares-Delivers got c h s = record { at = λ d e. Spares-Delivers got c d h (s.at d e) }

-- The same of a client that is relaying `b`.
pub record Relays (got b : Bytes) (c : Client) : Type 0 where
  pub is_open : c.client_closed ≡ false
  pub up : c.socks_up ≡ true
  pub relayed : c.recv_buf ≡ some b
  pub flows : got ≡ written c.calls ++ drop c.recv_sent b

pub Relays-Delivers : (got b : Bytes) (c : Client) → Relays got b c → Delivers got c
Relays-Delivers got b c r = record {
  open_is = λ _ _. rw r.relayed r.flows;
  before = λ down. absurd (ground (arith, down, r.up));
  lost = drop c.recv_sent b;
  begins = r.flows;
}

drop-drop : (m n : ℕ) (b : Bytes) → drop n (drop m b) ≡ drop (m + n) b
drop-drop zero n b = ap (λ k. drop k b) (omega arith)
drop-drop (suc m) zero [] = let e : suc m + 0 ≡ suc m = omega arith in rw e refl
drop-drop (suc m) (suc n) [] = let e : suc m + suc n ≡ suc (m + suc n) = omega arith in rw e refl
drop-drop (suc m) n (x ∷ b) =
    let e : suc m + n ≡ suc (m + n) = omega arith in rw e (drop-drop m n b)

written-write :
    (calls : List Call) (b : Bytes) → written (calls ++ tcp_write b ∷ []) ≡ written calls ++ b
unfolding written
written-write calls b =
    written-append calls (tcp_write b ∷ []) ∙ ap (◌++◌ (written calls)) (append-nil b)

-- A round queues the next bytes.
wrote-Relays : (got b : Bytes) (n : ℕ) (c : Client) → Relays got b c → Relays got b (wrote b n c)
wrote-Relays got b n c r =
    let left = drop c.recv_sent b in
    let split : left ≡ take n left ++ drop (c.recv_sent + n) b =
      sym (take-append-drop n left) ∙ ap (◌++◌ (take n left)) (drop-drop c.recv_sent n b) in
    record {
      is_open = r.is_open;
      up = r.up;
      relayed = r.relayed;
      flows =
          r.flows
          ∙ ap (◌++◌ (written c.calls)) split
          ∙ sym (append_assoc (written c.calls) (take n left) (drop (c.recv_sent + n) b))
          ∙ ap (λ w. w ++ drop (c.recv_sent + n) b) (sym (written-write c.calls (take n left)));
    }

abbrev pub QueueRelays : Bytes → Bytes → Queue → Type 0
QueueRelays got b (queued c) = Relays got b c
QueueRelays got b (write_failed c) = Relays got b c

abbrev pub SentDelivers : Bytes → Sent → Type 0
SentDelivers got (aborted c) = Delivers got c
SentDelivers got (up_still c) = Delivers got c

after_write-Relays :
    (got b : Bytes) (w : Written) (c : Client) (again : Client → Option Queue) (c' : Client)
    → Relays got b c
    → Ensures (QueueRelays got b) (again c')
    → Ensures (QueueRelays got b) (after_write w c again c')
after_write-Relays got b err_ok c again c' r h = h
after_write-Relays got b err_mem c again c' r h = Ensures-some _ r
after_write-Relays got b err_other c again c' r h = Ensures-some _ r

queue_loop-Relays :
    (got b : Bytes) (fuel i : ℕ) (k : Lwip) (c : Client)
    → Relays got b c
    → Ensures (QueueRelays got b) (queue_loop fuel i k b c)
unfolding queue_loop
queue_loop-Relays got b zero i k c r = Ensures-none
queue_loop-Relays got b (suc fuel) i k c r =
    let n = min (length b - c.recv_sent) (k.sndbuf i) in
    let c₁ = wrote b n c in
    let r₁ = wrote-Relays got b n c r in
    Ensures-if (n == 0) _ _ (λ _. Ensures-some _ r)
      λ _.
        after_write-Relays got b (k.write i) c
          (λ c'.
            if ltb c'.recv_sent (length b)
            then queue_loop fuel (suc i) k b c'
            else some (queued c'))
          c₁ r
          (Ensures-if (ltb c₁.recv_sent (length b)) _ _
            (λ _. queue_loop-Relays got b fuel (suc i) k c₁ r₁) (λ _. Ensures-some _ r₁))

abort-Delivers :
    (got : Bytes) (k : Lwip) (c : Client) → Delivers got c → Ensures (SentDelivers got) (abort k c)
abort-Delivers got k c h =
    Ensures-bind (client_abort_client k c) _
      λ d e. Ensures-some (aborted d) (Spares-Delivers got c d h ((abort-Spares k c).at d e))

drop_all : (n : ℕ) (b : Bytes) → length b ≤ n → drop n b ≡ []
drop_all zero [] h = refl
drop_all zero (x ∷ b) h = absurd (omega arith)
drop_all (suc n) [] h = refl
drop_all (suc n) (x ∷ b) h = drop_all n b (omega arith)

output-Relays : (got b : Bytes) (c : Client) → Relays got b c → Relays got b (call tcp_output c)
output-Relays got b c r = record {
  is_open = r.is_open;
  up = r.up;
  relayed = r.relayed;
  flows = rw (written-call c.calls tcp_output refl) r.flows;
}

send_out_end-Delivers :
    (got b : Bytes) (k : Lwip) (q : Queue)
    → QueueRelays got b q
    → Ensures (SentDelivers got) (send_out_end k b q)
unfolding send_out_end
send_out_end-Delivers got b k (write_failed c) r =
    abort-Delivers got k c (Relays-Delivers got b c r)
send_out_end-Delivers got b k (queued c) r =
    let out = call tcp_output c in
    let now = output-Relays got b c r in
    let h = Relays-Delivers got b out now in
    Ensures-if k.output_fails _ _ (λ _. abort-Delivers got k out h)
      λ _.
        Ensures-if (ltb c.recv_sent (length b)) _ _
          (λ _.
            Ensures-if (c.recv_pending == 0) _ _ (λ _. abort-Delivers got k out h)
              λ _. Ensures-some _ (record {
                open_is = h.open_is;
                before = h.before;
                lost = h.lost;
                begins = h.begins;
              }))
          (λ all.
            let empty : drop c.recv_sent b ≡ [] = drop_all c.recv_sent b (ground (arith, all)) in
            let taken : got ≡ written out.calls ++ [] =
              now.flows ∙ ap (◌++◌ (written out.calls)) empty in
            Ensures-some _ (record {
              open_is = λ _ _. taken;
              before = λ down. absurd (ground (arith, down, r.up));
              lost = [];
              begins = taken;
            }))

pub send_out-Delivers :
    (got b : Bytes) (k : Lwip) (c : Client)
    → Relays got b c
    → Ensures (SentDelivers got) (client_socks_recv_send_out k b c)
unfolding client_socks_recv_send_out
send_out-Delivers got b k c r = require-Ensures _ _ (
    Ensures-bind (queue_loop (suc (length b)) 0 k b c) _ λ q e.
      send_out_end-Delivers got b k q ((queue_loop-Relays got b (suc (length b)) 0 k c r).at q e))

pub receive_more-Delivers :
    (got : Bytes) (s : Sent) → SentDelivers got s → Ensures (Delivers got) (receive_more s)
receive_more-Delivers got (aborted c) h = Ensures-some c h
receive_more-Delivers got (up_still c) h =
    Ensures-if (is_some c.recv_buf) _ _ (λ _. Ensures-some c h)
      (λ _. Ensures-Spares-Delivers got c h (initiate-Spares c))

pub sent_more-Delivers :
    (got : Bytes) (s : Sent) → SentDelivers got s → Ensures (Delivers got) (sent_more s)
sent_more-Delivers got (aborted c) h = Ensures-some c h
sent_more-Delivers got (up_still c) h = require-Ensures (ltb 0 c.recv_pending) _ (
    Ensures-if (not (is_some c.recv_buf) && not c.socks_closed) _ _
      (λ _. Ensures-Spares-Delivers got c h (initiate-Spares c)) (λ _. Ensures-some c h))
