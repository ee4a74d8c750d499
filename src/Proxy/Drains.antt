-- ===== src/Proxy/Drains.antt =====
-- measurement_proxy/proxy.c: the sockets of `handle_udp` and the sets that the loop of `main` hands
-- to `select`.
use matador.Base.{
  ℕ, zero, suc, ◌-◌, ◌≡◌, ◌<◌, refl, ◌∙◌, arith, Bool, true, false, Option, List, [], ◌∷◌, inl, inr,
  Bool-cases, Ensures, Ensures-some, Ensures-bind, Ensures-if,
}
use matador.Base.Int.{ℤ, pos, negsuc, is_neg}
use matador.Memory.{Bytes}
use matador.Proxy.{Config, State, Effect, FdSet, fd_set}
use matador.Proxy.Keeps.{NoDrains, NoDrains-append, Keeps, handle_raw-Keeps, handle_udp-Keeps}
use matador.Proxy.Raw.{handle_raw}
use matador.Proxy.Udp.{handle_udp}
use matador.Proxy.Loop.{
  Kernel, span, next_fd, watch_fake, watched, drains_from, drain_fake, Turn, goes_on, finished,
  select_failed, turn_end, when_ready, turn, Run, running, stopped, exited, prepend, after_turn,
  run,
}

-- `select` only clears bits: it reports descriptors that it was asked about.
pub record IsSelect (select : ℤ → FdSet → ℤ × FdSet) : Type 0 where
  pub subset : (nfds : ℤ) (set : FdSet) (fd : ℕ) → (select nfds set).1 fd ≡ true → set fd ≡ true

abbrev pub AllSelect : List Kernel → Type 0
AllSelect [] = Unit
AllSelect (k ∷ ks) = IsSelect k.select × AllSelect ks

-- The three sockets were opened first, so every later descriptor is above them.
pub record IsOrdered (cfg : Config) : Type 0 where
  pub udp_first : cfg.sock_udp < cfg.sock_raw_recv
  pub send_last : cfg.sock_raw_recv < cfg.sock_raw_send

-- No descriptor above the three sockets is in the set.
pub record IsLow (cfg : Config) (set : FdSet) : Type 0 where
  pub low : (fd : ℕ) → cfg.sock_raw_send < fd → set fd ≡ false

watch_fake_lem : (maxfd : ℤ) (set : FdSet) → watch_fake maxfd set ≡ set
unfolding watch_fake
watch_fake_lem (pos n) set = let none_left : suc n - suc n ≡ 0 = omega arith in rw none_left
watch_fake_lem (negsuc zero) set = refl
watch_fake_lem (negsuc (suc n)) set = refl

watched-IsLow :
    (cfg : Config) (s : State) → IsOrdered cfg → IsLow cfg s.rset → IsLow cfg (watched cfg s)
unfolding watched
watched-IsLow cfg s ord l = record {
  low = λ fd h.
      rw
        (watch_fake_lem s.maxfd
          (fd_set cfg.sock_raw_send (fd_set cfg.sock_raw_recv (fd_set cfg.sock_udp s.rset))))
        (ground (arith, l.low fd h, ord.udp_first, ord.send_last));
}

select-IsLow :
    (cfg : Config) (select : ℤ → FdSet → ℤ × FdSet) (nfds : ℤ) (set : FdSet)
    → IsSelect select
    → IsLow cfg set
    → IsLow cfg (select nfds set).1
select-IsLow cfg select nfds set honest l = record {
  low = λ fd h. elim (Bool-cases ((select nfds set).1 fd)) [
    | inl on ↦ absurd (cc (honest.subset nfds set fd on, l.low fd h))
    | inr off ↦ off
  ];
}

drains_from-none :
    (n fd : ℕ) (cfg : Config) (set : FdSet) (fake : ℕ → Option Bytes) (buffer : Bytes)
    → cfg.sock_raw_send < fd
    → IsLow cfg set
    → drains_from n fd set fake buffer ≡ (buffer, [])
unfolding drains_from
drains_from-none zero fd cfg set fake buffer h l = refl
drains_from-none (suc n) fd cfg set fake buffer h l =
    rw (l.low fd h, drains_from-none n (suc fd) cfg set fake buffer (omega arith) l)

drain_fake-none :
    (cfg : Config) (s : State) (fake : ℕ → Option Bytes)
    → IsLow cfg s.rset
    → drain_fake cfg s fake ≡ (s, [])
unfolding drain_fake
drain_fake-none cfg s fake l = rw (
    drains_from-none (span (suc cfg.sock_raw_send) s.maxfd) (suc cfg.sock_raw_send) cfg s.rset fake
      s.buffer (omega arith) l)

-- A turn, and a run, that drain nothing and end with a low set.
abbrev QuietTurn : Config → Turn → Type 0
QuietTurn cfg (goes_on s out) = IsLow cfg s.rset × NoDrains out
QuietTurn cfg (finished s out) = NoDrains out
QuietTurn cfg select_failed = Unit

abbrev pub QuietRun : Run → Type 0
QuietRun (running s out) = NoDrains out
QuietRun (stopped s out) = NoDrains out
QuietRun (exited out) = NoDrains out

turn_end-Quiet :
    (cfg : Config) (done : Bool) (s : State) (out : List Effect)
    → IsLow cfg s.rset
    → NoDrains out
    → QuietTurn cfg (turn_end done s out)
turn_end-Quiet cfg true s out l h = h
turn_end-Quiet cfg false s out l h = (l, h)

when_ready-Ensures :
    {A : Type 0} {P : A → Type 0} (b : Bool) (idle : A) (handled : Option A)
    → P idle
    → Ensures P handled
    → Ensures P (when_ready b idle handled)
unfolding when_ready
when_ready-Ensures true idle handled p h = h
when_ready-Ensures false idle handled p h = Ensures-some idle p

turn-Quiet :
    (cfg : Config) (s : State) (k : Kernel)
    → IsOrdered cfg
    → IsSelect k.select
    → IsLow cfg s.rset
    → Ensures (QuietTurn cfg) (turn cfg s k)
unfolding turn
turn-Quiet cfg s k ord honest l =
    let selected = k.select (next_fd s.maxfd) (watched cfg s) in
    let s₁ : State = record s { rset = selected.1 } in
    let l₁ : IsLow cfg selected.1 =
      select-IsLow cfg k.select (next_fd s.maxfd) (watched cfg s) honest
        (watched-IsLow cfg s ord l) in
    Ensures-if (is_neg selected.0) _ _ (λ _. Ensures-some select_failed tt)
      λ _.
        Ensures-bind
          (when_ready (selected.1 cfg.sock_raw_recv) (s₁, []) (handle_raw cfg s₁ k.frame)) _
          λ raw er.
            Ensures-bind
              (when_ready (selected.1 cfg.sock_udp) (false, raw.0, [])
                (handle_udp k.sockets raw.0 k.datagram))
              _
              λ udp eu.
                let kr =
                  (when_ready-Ensures {P = Keeps selected.1} (selected.1 cfg.sock_raw_recv) (s₁, [])
                      (handle_raw cfg s₁ k.frame) (record { same_rset = refl; no_drains = tt })
                      (handle_raw-Keeps cfg s₁ k.frame)).at
                    raw er in
                let ku =
                  (when_ready-Ensures {P = λ r. Keeps raw.0.rset (r.1, r.2)}
                      (selected.1 cfg.sock_udp) (false, raw.0, [])
                      (handle_udp k.sockets raw.0 k.datagram)
                      (record { same_rset = refl; no_drains = tt })
                      (handle_udp-Keeps k.sockets raw.0 k.datagram)).at
                    udp eu in
                let l₂ : IsLow cfg udp.1.rset = rw (ku.same_rset ∙ kr.same_rset) l₁ in
                rw (drain_fake-none cfg udp.1 k.fake l₂) (
                  Ensures-some _ (
                    turn_end-Quiet cfg udp.0 udp.1 _ l₂ (
                      NoDrains-append raw.1 _ kr.no_drains
                        (NoDrains-append udp.2 [] ku.no_drains tt))))

prepend-Quiet : (out : List Effect) (r : Run) → NoDrains out → QuietRun r → QuietRun (prepend out r)
prepend-Quiet out (running s more) h q = NoDrains-append out more h q
prepend-Quiet out (stopped s more) h q = NoDrains-append out more h q
prepend-Quiet out (exited more) h q = NoDrains-append out more h q

after_turn-Quiet :
    (cfg : Config) (rest : State → Option Run) (t : Turn)
    → ((s : State) → IsLow cfg s.rset → Ensures QuietRun (rest s))
    → QuietTurn cfg t
    → Ensures QuietRun (after_turn rest t)
after_turn-Quiet cfg rest (goes_on s out) h q =
    Ensures-bind (rest s) _
      λ r e. Ensures-some (prepend out r) (prepend-Quiet out r q.1 ((h s q.0).at r e))
after_turn-Quiet cfg rest (finished s out) h q = Ensures-some (stopped s out) q
after_turn-Quiet cfg rest select_failed h q = Ensures-some (exited []) tt

-- However long the proxy runs, and whatever arrives, it reads nothing from a socket that it opened
-- for a UDP packet, provided that it starts with an empty set (or one with the three sockets only)
-- and `select` reports nothing that it was not asked about.
pub run-QuietRun :
    (cfg : Config) (s : State) (ks : List Kernel)
    → IsOrdered cfg
    → AllSelect ks
    → IsLow cfg s.rset
    → Ensures QuietRun (run cfg s ks)
unfolding run
run-QuietRun cfg s [] ord honest l = Ensures-some (running s []) tt
run-QuietRun cfg s (k ∷ ks) ord honest l = Ensures-bind (turn cfg s k) _ λ t e.
    after_turn-Quiet cfg (λ s'. run cfg s' ks) t (λ s' l'. run-QuietRun cfg s' ks ord honest.1 l')
      ((turn-Quiet cfg s k ord honest.0 l).at t e)
