-- ===== src/Tun2socks/Untouched.antt =====
-- tun2socks.c: what leaves the data on its way to the device alone.
use matador.Base.{
  ℕ, zero, suc, ◌≡◌, refl, ◌∙◌, sym, ap, false, not, ◌&&◌, ◌||◌, Option, List, [], ◌∷◌, ◌++◌,
  append-nil, arith, append_assoc, ltb, Bool-cases, inl, inr, Ensures, Ensures-none, Ensures-some,
  Ensures-if,
}
use matador.Memory.{Bytes}
use matador.Tun2socks.{
  Client, Lwip, Call, tcp_write, tcp_close, tcp_abort, socks_send, socks_receive, socks_free, free,
  call, is_some, is_empty,
}
use matador.Tun2socks.Closing.{
  with_client_closed, with_socks_closed, client_dealloc, remove_callbacks, close_pcb,
  client_handle_freed_client, client_free_client, client_free_socks, client_abort_client, depth,
}
use matador.Tun2socks.Relay.{client_send_to_socks, client_socks_recv_initiate, send_more}
use matador.Tun2socks.Holds.{require-Ensures}

-- The bytes that lwIP has taken for the device.
abbrev pub payload : Call → Bytes
payload (tcp_write b) = b
payload _ = []

unfoldable pub written : List Call → Bytes
written [] = []
written (m ∷ calls) = payload m ++ written calls

pub written-append : (xs ys : List Call) → written (xs ++ ys) ≡ written xs ++ written ys
unfolding written
written-append [] ys = refl
written-append (m ∷ xs) ys =
    ap (◌++◌ (payload m)) (written-append xs ys)
    ∙ sym (append_assoc (payload m) (written xs) (written ys))

-- A call that is not `tcp_write`
pub written-call :
    (calls : List Call) (m : Call) → payload m ≡ [] → written (calls ++ m ∷ []) ≡ written calls
unfolding written
written-call calls m e = written-append calls (m ∷ []) ∙ (rw e (append-nil (written calls)))

-- From `c` to `d` no byte for the device has moved, and a closed pcb stays closed.
pub record Spares (c d : Client) : Type 0 where
  pub same_written : written d.calls ≡ written c.calls
  pub same_buf : d.recv_buf ≡ c.recv_buf
  pub same_sent : d.recv_sent ≡ c.recv_sent
  pub same_up : d.socks_up ≡ c.socks_up
  pub closes : d.client_closed ≡ false → c.client_closed ≡ false

pub Spares-refl : (c : Client) → Spares c c
Spares-refl c = record {
  same_written = refl;
  same_buf = refl;
  same_sent = refl;
  same_up = refl;
  closes = λ h. h;
}

pub Spares-trans : (b c d : Client) → Spares b c → Spares c d → Spares b d
Spares-trans b c d s t = record {
  same_written = t.same_written ∙ s.same_written;
  same_buf = t.same_buf ∙ s.same_buf;
  same_sent = t.same_sent ∙ s.same_sent;
  same_up = t.same_up ∙ s.same_up;
  closes = λ h. s.closes (t.closes h);
}

pub then-Spares :
    {m : Option Client} (b c : Client) → Spares b c → Ensures (Spares c) m → Ensures (Spares b) m
then-Spares b c s h = record { at = λ d e. Spares-trans b c d s (h.at d e) }

pub call-Spares : (m : Call) (c : Client) → payload m ≡ [] → Spares c (call m c)
call-Spares m c e = record {
  same_written = written-call c.calls m e;
  same_buf = refl;
  same_sent = refl;
  same_up = refl;
  closes = λ h. h;
}

pub client_dealloc-Spares : (c : Client) → Ensures (Spares c) (client_dealloc c)
unfolding client_dealloc
client_dealloc-Spares c = require-Ensures _ _ (
    Ensures-some _ (record {
      same_written = written-call c.calls free refl;
      same_buf = refl;
      same_sent = refl;
      same_up = refl;
      closes = λ h. h;
    }))

with_client_closed-Spares : (c : Client) → Spares c (with_client_closed c)
with_client_closed-Spares c = record {
  same_written = refl;
  same_buf = refl;
  same_sent = refl;
  same_up = refl;
  closes = λ h. absurd (ground (arith, h));
}

with_socks_closed-Spares : (c : Client) → Spares c (with_socks_closed c)
with_socks_closed-Spares c = record {
  same_written = written-call c.calls socks_free refl;
  same_buf = refl;
  same_sent = refl;
  same_up = refl;
  closes = λ h. h;
}

pub remove_callbacks-Spares : (c : Client) → Spares c (remove_callbacks c)
remove_callbacks-Spares c = record {
  same_written = refl;
  same_buf = refl;
  same_sent = refl;
  same_up = refl;
  closes = λ h. h;
}

close_pcb-Spares : (k : Lwip) (c : Client) → Spares c (close_pcb k c)
close_pcb-Spares k c = elim (Bool-cases k.close_fails) [
  | inl e ↦ rw e (
      Spares-trans c (call tcp_close c) _ (call-Spares tcp_close c refl)
        (call-Spares tcp_abort (call tcp_close c) refl))
  | inr e ↦ rw e (call-Spares tcp_close c refl)
]

pub record ClosersSpare (fuel : ℕ) (k : Lwip) : Type 0 where
  pub freed : (c : Client) → Ensures (Spares c) (client_handle_freed_client fuel k c)
  pub free_client : (c : Client) → Ensures (Spares c) (client_free_client fuel k c)
  pub free_socks : (c : Client) → Ensures (Spares c) (client_free_socks fuel k c)

-- The functions that close a side.
pub closers-Spare : (fuel : ℕ) (k : Lwip) → ClosersSpare fuel k
unfolding client_handle_freed_client
closers-Spare zero k = record {
  freed = λ c. Ensures-none;
  free_client = λ c. Ensures-none;
  free_socks = λ c. Ensures-none;
}
closers-Spare (suc fuel) k =
    let h = closers-Spare fuel k in
    record {
      freed = λ c. require-Ensures (not c.client_closed) _ (
          let closed = with_client_closed-Spares c in
          Ensures-if (not (is_empty c.buf) && not c.socks_closed) _ _ (λ _. Ensures-some _ closed)
            λ _.
              Ensures-if (not c.socks_closed) _ _
                (λ _. then-Spares c _ closed (h.free_socks (with_client_closed c)))
                (λ _. then-Spares c _ closed (client_dealloc-Spares (with_client_closed c))));
      free_client = λ c. require-Ensures (not c.client_closed) _ (
          then-Spares c _
            (Spares-trans c (remove_callbacks c) _ (remove_callbacks-Spares c)
              (close_pcb-Spares k (remove_callbacks c)))
            (h.freed (close_pcb k (remove_callbacks c))));
      free_socks = λ c. require-Ensures (not c.socks_closed) _ (
          let closed = with_socks_closed-Spares c in
          Ensures-if
            (c.socks_up && ((is_some c.recv_buf || ltb 0 c.recv_pending) && not c.client_closed)) _
            _ (λ _. Ensures-some _ closed)
            λ _.
              Ensures-if (not c.client_closed) _ _
                (λ _. then-Spares c _ closed (h.free_client (with_socks_closed c)))
                (λ _. then-Spares c _ closed (client_dealloc-Spares (with_socks_closed c))));
    }

pub abort-Spares : (k : Lwip) (c : Client) → Ensures (Spares c) (client_abort_client k c)
unfolding client_abort_client
abort-Spares k c = require-Ensures (not c.client_closed) _ (
    then-Spares c _
      (Spares-trans c (remove_callbacks c) _ (remove_callbacks-Spares c)
        (call-Spares tcp_abort (remove_callbacks c) refl))
      ((closers-Spare depth k).freed (call tcp_abort (remove_callbacks c))))

pub initiate-Spares : (c : Client) → Ensures (Spares c) (client_socks_recv_initiate c)
unfolding client_socks_recv_initiate
initiate-Spares c = require-Ensures _ _ (Ensures-some _ (call-Spares socks_receive c refl))

pub send_to_socks-Spares : (c : Client) → Ensures (Spares c) (client_send_to_socks c)
unfolding client_send_to_socks
send_to_socks-Spares c =
    require-Ensures _ _ (Ensures-some _ (call-Spares (socks_send c.buf) c refl))

pub send_more-Spares : (k : Lwip) (c : Client) → Ensures (Spares c) (send_more k c)
send_more-Spares k c =
    Ensures-if (not (is_empty c.buf)) _ _
      (λ _. Ensures-some _ (call-Spares (socks_send c.buf) c refl))
      λ _.
        Ensures-if c.client_closed _ _ (λ _. (closers-Spare depth k).free_socks c)
          (λ _. Ensures-some c (Spares-refl c))
