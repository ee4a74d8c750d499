-- ===== src/Tun2socks/Keeps.antt =====
-- tun2socks.c: the callbacks of a client and the conditions its assertions state.
use matador.Base.{
  ℕ, ◌-◌, ◌≡◌, ◌<◌, ◌≤◌, refl, arith, Bool, true, false, not, ◌&&◌, Option, none, some, [], ◌∷◌,
  ◌++◌, length, drop, ltb, leb, if◌then◌else◌, inr, Runs, Runs-some, Runs-if, length-append,
  length-drop,
}
use matador.Memory.{Bytes}
use matador.Tun2socks.{
  Client, Lwip, tcp_recved, socks_send, socks_receive, require, call, is_some, is_empty, tcp_wnd,
  client_socks_recv_buf_size,
}
use matador.Tun2socks.Relay.{
  client_send_to_socks, client_recv_func, send_more, client_socks_send_handler_done,
  client_socks_recv_initiate,
}
use matador.Tun2socks.Events.{recv, socks_sent}
use matador.Tun2socks.Sound.{IsSound, Fares, IsEnabled}
use matador.Tun2socks.TakenDown.{
  is_empty-pos, sound-IsListed, require-Runs, client_free_client-Runs, IsHalf,
  client_free_socks-Runs,
}

pub not_empty : (b : Bytes) → 0 < length b → is_empty b ≡ false
not_empty [] h = absurd (omega arith)
not_empty (x ∷ b) h = refl

filled-IsSound :
    (c : Client) (b : Bytes)
    → IsSound c
    → c.client_closed ≡ false
    → length b ≤ tcp_wnd - length c.buf
    → IsSound (record c { buf = c.buf ++ b })
filled-IsSound c b s h fits = record {
  alive = s.alive;
  counted = s.counted;
  room = omega (arith, length-append c.buf b, s.room, fits);
  one_open = s.one_open;
  recv_open = s.recv_open;
  sent_open = s.sent_open;
  waiting = s.waiting;
  owes_client = s.owes_client;
  owes_socks = λ f. absurd (ground (arith, f, h));
}

pub call-IsSound : (m : matador.Tun2socks.Call) (c : Client) → IsSound c → IsSound (call m c)
call-IsSound m c s = record {
  alive = s.alive;
  counted = s.counted;
  room = s.room;
  one_open = s.one_open;
  recv_open = s.recv_open;
  sent_open = s.sent_open;
  waiting = s.waiting;
  owes_client = s.owes_client;
  owes_socks = s.owes_socks;
}

client_send_to_socks-Runs :
    (c : Client)
    → IsSound c
    → c.socks_closed ≡ false
    → c.socks_up ≡ true
    → is_empty c.buf ≡ false
    → Runs Fares (client_send_to_socks c)
unfolding client_send_to_socks
client_send_to_socks-Runs c s h up filled =
    require-Runs _ _ (ground (arith, h, up, filled))
      (Runs-some _ (inr (call-IsSound (socks_send c.buf) c s)))

append-is_empty : (a b : Bytes) → is_empty b ≡ false → is_empty (a ++ b) ≡ false
append-is_empty [] b h = h
append-is_empty (x ∷ a) b h = refl

pub client_recv_func-Runs :
    (k : Lwip) (p : Option Bytes) (c : Client)
    → IsSound c
    → IsEnabled (recv p) c
    → Runs Fares (client_recv_func k p c)
unfolding client_recv_func
client_recv_func-Runs k none c s h =
    require-Runs _ _ (ground (arith, h.1)) (client_free_client-Runs 1 k c (sound-IsListed c s) h.1)
client_recv_func-Runs k (some b) c s h =
    let some_bytes = not_empty b h.2 in
    let filled : Client = record c { buf = c.buf ++ b } in
    require-Runs _ _ (ground (arith, h.1, some_bytes)) (
      Runs-if (ltb (tcp_wnd - length c.buf) (length b)) _ _ (λ _. Runs-some c (inr s))
        λ fits.
          let sound = filled-IsSound c b s h.1 (ground (arith, fits)) in
          Runs-if (is_empty c.buf && c.socks_up) _ _
            (λ e.
              client_send_to_socks-Runs filled sound (s.recv_open h.0 h.1) (ground (arith, e))
                (append-is_empty c.buf b some_bytes))
            (λ _. Runs-some filled (inr sound)))

-- What `client_socks_send_handler_done` leaves in the buffer.
rest-IsHalf :
    (n : ℕ) (c : Client)
    → IsSound c
    → c.socks_closed ≡ false
    → IsHalf (record c { buf = drop n c.buf })
rest-IsHalf n c s h = record {
  listed = record {
    alive = s.alive;
    counted = s.counted;
    room = omega (arith, length-drop n c.buf, s.room);
  };
  socks_open = h;
  sent_open = s.sent_open;
  waiting = s.waiting;
}

half-IsSound : (c : Client) → IsHalf c → (c.client_closed ≡ true → 0 < length c.buf) → IsSound c
half-IsSound c s h = record {
  alive = s.listed.alive;
  counted = s.listed.counted;
  room = s.listed.room;
  one_open = ground (arith, s.socks_open);
  recv_open = λ _ _. s.socks_open;
  sent_open = s.sent_open;
  waiting = s.waiting;
  owes_client = λ f. absurd (ground (arith, f, s.socks_open));
  owes_socks = h;
}

send_more-Runs : (k : Lwip) (c : Client) → IsHalf c → Runs Fares (send_more k c)
send_more-Runs k c s =
    Runs-if (not (is_empty c.buf)) _ _
      (λ e. Runs-some _ (
        inr (
          call-IsSound (socks_send c.buf) c
            (half-IsSound c s (λ _. is_empty-pos c.buf (ground (arith, e)))))))
      λ _.
        Runs-if c.client_closed _ _ (λ _. client_free_socks-Runs 0 k c s)
          λ e. Runs-some _ (inr (half-IsSound c s (λ f. absurd (ground (arith, e, f)))))

confirmed-IsHalf :
    (closed : Bool) (n : ℕ) (c : Client)
    → IsHalf c
    → IsHalf (if closed then c else call (tcp_recved n) c)
confirmed-IsHalf true n c s = s
confirmed-IsHalf false n c s = record {
  listed = record { alive = s.listed.alive; counted = s.listed.counted; room = s.listed.room };
  socks_open = s.socks_open;
  sent_open = s.sent_open;
  waiting = s.waiting;
}

pub client_socks_send_handler_done-Runs :
    (k : Lwip) (n : ℕ) (c : Client)
    → IsSound c
    → IsEnabled (socks_sent n) c
    → Runs Fares (client_socks_send_handler_done k n c)
unfolding client_socks_send_handler_done
client_socks_send_handler_done-Runs k n c s h =
    require-Runs (not c.socks_closed && (c.socks_up && (ltb 0 n && leb n (length c.buf)))) _
      (ground (arith, h.0, h.1, h.2, h.3))
      (send_more-Runs k _ (
        confirmed-IsHalf c.client_closed n (record c { buf = drop n c.buf })
          (rest-IsHalf n c s h.0)))

pub client_socks_recv_initiate-Runs :
    (c : Client)
    → IsSound c
    → c.client_closed ≡ false
    → c.socks_closed ≡ false
    → c.socks_up ≡ true
    → c.recv_buf ≡ none
    → Runs Fares (client_socks_recv_initiate c)
unfolding client_socks_recv_initiate
client_socks_recv_initiate-Runs c s h g up free =
    let idle : is_some c.recv_buf ≡ false = rw free refl in
    require-Runs
      (not c.client_closed && (not c.socks_closed && (c.socks_up && not (is_some c.recv_buf)))) _
      (ground (arith, h, g, up, idle)) (Runs-some _ (inr (call-IsSound socks_receive c s)))
