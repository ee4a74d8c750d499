-- ===== src/Tun2socks/Flushed.antt =====
-- tun2socks.c: a client whose device has closed the connection, while the SOCKS server takes the rest.
use matador.Base.{
  ℕ, ◌+◌, ◌-◌, ◌≡◌, ◌<◌, ◌≤◌, refl, arith, true, false, not, ◌&&◌, Option, some, List, [], ◌∷◌,
  length, drop, ltb, leb, if◌then◌else◌, ◌>>=◌, length-drop, Runs, Runs-some, Runs-bind, Runs-if,
  ap, sym, ◌∙◌,
}
use mathlib.Core.Path.{subst}
use matador.Base.{Bool, Runs-map}
use matador.Memory.{Bytes}
use matador.Tun2socks.{Client, Lwip, is_empty, call, tcp_recved}
use matador.Tun2socks.Relay.{client_socks_send_handler_done, send_more}
use matador.Tun2socks.Events.{socks_sent, step}
use matador.Tun2socks.Sound.{IsSound}
use matador.Tun2socks.TakenDown.{
  IsListed, sound-IsListed, free_socks_last, require-Runs, is_empty-pos,
}

-- The SOCKS client reports that it has sent so many bytes, again and again.
abbrev pub flush : Lwip → List ℕ → Client → Option Client
flush k [] c = some c
flush k (n ∷ ns) c = step k (socks_sent n) c >>= flush k ns

abbrev pub total : List ℕ → ℕ
total [] = 0
total (n ∷ ns) = n + total ns

abbrev pub AllPositive : List ℕ → Type 0
AllPositive [] = Unit {0}
AllPositive (n ∷ ns) = (0 < n) × AllPositive ns

pub record IsFlushing (c : Client) : Type 0 where
  pub listed : IsListed c
  pub closed : c.client_closed ≡ true
  pub socks_open : c.socks_closed ≡ false
  pub up : c.socks_up ≡ true

confirmed :
    (closed : Bool)
    → closed ≡ true
    → (n : ℕ) (c : Client) → (if closed then c else call (tcp_recved n) c) ≡ c
confirmed true h n c = refl
confirmed false h n c = absurd (ground (arith, h))

-- What a report leaves: a client that is freed, or one that flushes the rest.
abbrev Flushes : ℕ → Client → Client → Type 0
Flushes n c d =
    (n ≡ length c.buf → d.live ≡ false) × (n < length c.buf → IsFlushing d × (d.buf ≡ drop n c.buf))

rest-IsFlushing : (n : ℕ) (c : Client) → IsFlushing c → IsFlushing (record c { buf = drop n c.buf })
rest-IsFlushing n c f = record {
  listed = record {
    alive = f.listed.alive;
    counted = f.listed.counted;
    room = omega (arith, f.listed.room, length-drop n c.buf);
  };
  closed = f.closed;
  socks_open = f.socks_open;
  up = f.up;
}

empty_length : (b : Bytes) → is_empty b ≡ true → length b ≡ 0
empty_length [] h = refl
empty_length (x ∷ b) h = absurd (ground (arith, h))

send_more-Flushes :
    (k : Lwip) (n : ℕ) (c : Client)
    → IsFlushing c
    → Runs (Flushes n c) (send_more k (record c { buf = drop n c.buf }))
send_more-Flushes k n c f =
    let left : Client = record c { buf = drop n c.buf } in
    let g = rest-IsFlushing n c f in
    Runs-if (not (is_empty left.buf)) _ _
      (λ some_left.
        let more = is_empty-pos left.buf (ground (arith, some_left)) in
        Runs-some _ (
          λ all. absurd (omega (arith, all, more, length-drop n c.buf)),
          λ _. (
            record {
              listed = record {
                alive = g.listed.alive;
                counted = g.listed.counted;
                room = g.listed.room;
              };
              closed = g.closed;
              socks_open = g.socks_open;
              up = g.up;
            },
            refl,
          ),
        ))
      λ none_left.
        let empty = empty_length left.buf (ground (arith, none_left)) in
        Runs-if left.client_closed _ _
          (λ _.
            Runs-map
              (λ d freed.
                (λ _. freed, λ less. absurd (omega (arith, less, empty, length-drop n c.buf))))
              (free_socks_last 3 k left g.listed g.closed g.socks_open))
          (λ is_open. absurd (ground (arith, is_open, g.closed)))

sent-Flushes :
    (k : Lwip) (n : ℕ) (c : Client)
    → IsFlushing c
    → 0 < n
    → n ≤ length c.buf
    → Runs (Flushes n c) (client_socks_send_handler_done k n c)
unfolding client_socks_send_handler_done
sent-Flushes k n c f pos within =
    let left : Client = record c { buf = drop n c.buf } in
    let same : (if c.client_closed then left else call (tcp_recved n) left) ≡ left =
      confirmed c.client_closed f.closed n left in
    require-Runs (not c.socks_closed && (c.socks_up && (ltb 0 n && leb n (length c.buf)))) _
      (ground (arith, f.socks_open, f.up, pos, within))
      (subst (λ x. Runs (Flushes n c) (send_more k x)) (sym same) (send_more-Flushes k n c f))

flush-Runs :
    (k : Lwip) (ns : List ℕ) (c : Client)
    → IsFlushing c
    → 0 < length c.buf
    → AllPositive ns
    → total ns ≡ length c.buf
    → Runs (λ d. d.live ≡ false) (flush k ns c)
unfolding step
flush-Runs k [] c f some_bytes p e = absurd (omega (arith, some_bytes, e))
flush-Runs k (n ∷ []) c f some_bytes p e =
    Runs-bind _ (sent-Flushes k n c f p.0 (omega (arith, e)))
      λ d _ q. Runs-some d (q.0 (omega (arith, e)))
flush-Runs k (n ∷ m ∷ ns) c f some_bytes p e =
    Runs-bind (flush k (m ∷ ns)) (sent-Flushes k n c f p.0 (omega (arith, e))) λ d _ q.
      let r = q.1 (omega (arith, e, p.1.0)) in
      let size : length d.buf ≡ length c.buf - n = ap length r.1 ∙ length-drop n c.buf in
      flush-Runs k (m ∷ ns) d r.0 (omega (arith, size, e, p.1.0)) p.1 (omega (arith, size, e))

-- A client whose device has closed the connection lives on only as long as the SOCKS server has not
-- taken all that is in the buffer: when it has, in whatever portions, the client is freed.
pub flush-frees :
    (k : Lwip) (ns : List ℕ) (c : Client)
    → IsSound c
    → c.client_closed ≡ true
    → c.socks_up ≡ true
    → AllPositive ns
    → total ns ≡ length c.buf
    → Runs (λ d. d.live ≡ false) (flush k ns c)
flush-frees k ns c s closed up p e =
    flush-Runs k ns c
      (record {
        listed = sound-IsListed c s;
        closed = closed;
        socks_open = ground (arith, s.one_open, closed);
        up = up;
      })
      (s.owes_socks closed) p e
