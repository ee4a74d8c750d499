-- ===== src/Tun2socks/Queued.antt =====
-- What `client_socks_recv_send_out` queues with lwIP.
use matador.Base.{
  ℕ, zero, suc, ◌+◌, ◌-◌, ◌≡◌, ◌<◌, ◌≤◌, refl, ap, ◌∙◌, arith, Bool, true, false, Option, none,
  some, List, [], ◌∷◌, ◌++◌, length, ltb, ◌==◌, if◌then◌else◌, ◌⊎◌, inl, inr, Runs, Runs-some,
  Runs-if, Runs-bind, Runs-map,
}
use Prim.Native.Nat.{min}
use matador.Memory.{Bytes}
use matador.Tun2socks.{Client, Lwip, Written, err_ok, err_mem, err_other, Call, tcp_output, call}
use matador.Tun2socks.Relay.{
  Queue, queued, write_failed, wrote, after_write, queue_loop, Sent, aborted, up_still, abort,
  send_out_end, client_socks_recv_send_out,
}
use matador.Tun2socks.Sound.{Fares}
use matador.Tun2socks.TakenDown.{IsListed, require-Runs, client_abort_client-Runs}

-- `c` with other numbers in the fields that count what lwIP has.
abbrev pub with_counts : Client → ℕ → ℕ → List Call → Client
with_counts c sent pending calls = record c {
  recv_sent = sent;
  recv_pending = pending;
  calls = calls;
}

-- `c'` is `c` after some bytes more were queued.
pub record HasMoved (b : Bytes) (c c' : Client) : Type 0 where
  pub sent : ℕ
  pub pending : ℕ
  pub calls : List Call
  pub c'_is : c' ≡ with_counts c sent pending calls
  pub upwards : c.recv_sent ≤ sent
  pub inside : sent ≤ length b
  pub balance : pending + c.recv_sent ≡ c.recv_pending + sent

abbrev pub HasQueued : Bytes → Client → Queue → Type 0
HasQueued b c (queued c') = HasMoved b c c'
HasQueued b c (write_failed c') = HasMoved b c c'

stays-HasMoved : (b : Bytes) (c : Client) → c.recv_sent ≤ length b → HasMoved b c c
stays-HasMoved b c h = record {
  sent = c.recv_sent;
  pending = c.recv_pending;
  calls = c.calls;
  c'_is = refl;
  upwards = omega arith;
  inside = h;
  balance = refl;
}

-- A round, and then `rest`.
moves_on : (b : Bytes) (n : ℕ) (c c' : Client) → HasMoved b (wrote b n c) c' → HasMoved b c c'
moves_on b n c c' m = record {
  sent = m.sent;
  pending = m.pending;
  calls = m.calls;
  c'_is = m.c'_is;
  upwards = omega (arith, m.upwards);
  inside = m.inside;
  balance = omega (arith, m.balance);
}

moves_on-HasQueued :
    (b : Bytes) (n : ℕ) (c : Client) (q : Queue) → HasQueued b (wrote b n c) q → HasQueued b c q
moves_on-HasQueued b n c (queued c') m = moves_on b n c c' m
moves_on-HasQueued b n c (write_failed c') m = moves_on b n c c' m

after_write-Runs :
    (w : Written) (b : Bytes) (c : Client) (again : Client → Option Queue) (n : ℕ)
    → c.recv_sent ≤ length b
    → Runs (HasQueued b c) (again (wrote b n c))
    → Runs (HasQueued b c) (after_write w c again (wrote b n c))
after_write-Runs err_ok b c again n h r = r
after_write-Runs err_mem b c again n h r = Runs-some _ (stays-HasMoved b c h)
after_write-Runs err_other b c again n h r = Runs-some _ (stays-HasMoved b c h)

queue_loop-Runs :
    (fuel i : ℕ) (k : Lwip) (b : Bytes) (c : Client)
    → c.recv_sent ≤ length b
    → length b - c.recv_sent < fuel
    → Runs (HasQueued b c) (queue_loop fuel i k b c)
unfolding queue_loop
queue_loop-Runs zero i k b c h enough = absurd (omega arith)
queue_loop-Runs (suc fuel) i k b c h enough =
    let n = min (length b - c.recv_sent) (k.sndbuf i) in
    let c₁ = wrote b n c in
    Runs-if (n == 0) _ _ (λ _. Runs-some _ (stays-HasMoved b c h))
      λ some_bytes.
        let positive : 0 < n = ground (arith, some_bytes) in
        after_write-Runs (k.write i) b c
          (λ c'.
            if ltb c'.recv_sent (length b)
            then queue_loop fuel (suc i) k b c'
            else some (queued c'))
          n h
          (Runs-if (ltb c₁.recv_sent (length b)) _ _
            (λ more.
              Runs-map (moves_on-HasQueued b n c)
                (queue_loop-Runs fuel (suc i) k b c₁ (omega arith) (omega arith)))
            (λ _. Runs-some _ (moves_on b n c c₁ (stays-HasMoved b c₁ (omega arith)))))

-- What holds when the function returns 0: bytes are waiting to be confirmed, and either everything
-- was queued or the rest waits.
pub record HasSent (b : Bytes) (c c' : Client) : Type 0 where
  pub sent : ℕ
  pub pending : ℕ
  pub calls : List Call
  pub rest : Option Bytes
  pub waits : Bool
  pub c'_is :
      c' ≡ record (with_counts c sent pending calls) { recv_buf = rest; recv_waiting = waits }
  pub confirmed_later : 0 < pending
  pub rest_is : (rest ≡ none) ⊎ ((rest ≡ some b) × (waits ≡ true) × (sent < length b))

abbrev pub SendsOut : Bytes → Client → Sent → Type 0
SendsOut b c (aborted c') = Fares c'
SendsOut b c (up_still c') = HasSent b c c'

abort-Runs :
    (k : Lwip) (b : Bytes) (c c' : Client)
    → IsListed c'
    → c'.client_closed ≡ false
    → Runs (SendsOut b c) (abort k c')
abort-Runs k b c c' l h = Runs-bind _ (client_abort_client-Runs k c' l h) λ d _ f. Runs-some _ f

moved-IsListed :
    (b : Bytes) (c c' : Client) → IsListed c → HasMoved b c c' → IsListed (call tcp_output c')
moved-IsListed b c c' l m =
    rw m.c'_is (record { alive = l.alive; counted = l.counted; room = l.room })

queue-IsListed : (b : Bytes) (c c' : Client) → IsListed c → HasMoved b c c' → IsListed c'
queue-IsListed b c c' l m =
    rw m.c'_is (record { alive = l.alive; counted = l.counted; room = l.room })

module _ (k : Lwip) (b : Bytes) (c : Client) (l : IsListed c) (is_open : c.client_closed ≡ false)
    (kept : c.recv_buf ≡ some b) (some_left : c.recv_sent < length b) where
  queued-Runs : (c' : Client) → HasMoved b c c' → Runs (SendsOut b c) (send_out_end k b (queued c'))
  unfolding send_out_end
  queued-Runs c' m =
      let out = call tcp_output c' in
      let listed = moved-IsListed b c c' l m in
      let still : out.client_closed ≡ false = rw m.c'_is is_open in
      let pending_is : c'.recv_pending ≡ m.pending = rw m.c'_is refl in
      let sent_is : c'.recv_sent ≡ m.sent = rw m.c'_is refl in
      Runs-if k.output_fails _ _ (λ _. abort-Runs k b c out listed still)
        λ _.
          Runs-if (ltb c'.recv_sent (length b)) _ _
            (λ more.
              Runs-if (c'.recv_pending == 0) _ _ (λ _. abort-Runs k b c out listed still)
                λ later. Runs-some _ (record {
                  sent = m.sent;
                  pending = m.pending;
                  calls = m.calls ++ tcp_output ∷ [];
                  rest = some b;
                  waits = true;
                  c'_is =
                      ap (λ (d : Client). record (call tcp_output d) { recv_waiting = true })
                        m.c'_is
                      ∙ ap
                          (λ (r : Option Bytes).
                            record (with_counts c m.sent m.pending (m.calls ++ tcp_output ∷ [])) {
                              recv_buf = r;
                              recv_waiting = true;
                            })
                          kept;
                  confirmed_later = ground (arith, later, pending_is);
                  rest_is = inr (refl, refl, ground (arith, more, sent_is));
                }))
            (λ all. Runs-some _ (record {
              sent = m.sent;
              pending = m.pending;
              calls = m.calls ++ tcp_output ∷ [];
              rest = none;
              waits = c.recv_waiting;
              c'_is = ap (λ (d : Client). record (call tcp_output d) { recv_buf = none }) m.c'_is;
              confirmed_later = ground (arith, m.balance, m.inside, all, sent_is, some_left);
              rest_is = inl refl;
            }))

  send_out_end-Runs : (q : Queue) → HasQueued b c q → Runs (SendsOut b c) (send_out_end k b q)
  send_out_end-Runs (queued c') m = queued-Runs c' m
  send_out_end-Runs (write_failed c') m =
      unfold send_out_end in (abort-Runs k b c c' (queue-IsListed b c c' l m) (rw m.c'_is is_open))

  pub client_socks_recv_send_out-Runs :
      c.socks_up ≡ true
      → c.recv_waiting ≡ false
      → Runs (SendsOut b c) (client_socks_recv_send_out k b c)
  unfolding client_socks_recv_send_out
  client_socks_recv_send_out-Runs up ready =
      require-Runs _ _ (ground (arith, is_open, up, ready, some_left)) (
        Runs-bind _ (queue_loop-Runs (suc (length b)) 0 k b c (omega arith) (omega arith))
          λ q _ p. send_out_end-Runs q p)
