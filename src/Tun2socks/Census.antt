-- ===== src/Tun2socks/Census.antt =====
-- tun2socks.c: all clients over a whole run, and `num_clients`.
use matador.Base.{
  ℕ, zero, suc, ◌+◌, ◌≡◌, ◌<◌, refl, arith, Bool, Option, none, some, List, [], ◌∷◌, ◌++◌, length,
  true, false, if◌then◌else◌, length-append, Runs, Runs-at, Runs-some, Runs-bind, Runs-map,
}
use matador.Memory.{Bytes}
use matador.Tun2socks.{Client, Lwip}
use matador.Tun2socks.Events.{accepted, Event}
use matador.Tun2socks.Sound.{IsSound, Fares, IsEnabled}
use matador.Tun2socks.Steps.{step-Runs}
use matador.Tun2socks.History.{accepted-IsSound, live-IsSound}
use matador.Tun2socks.Holds.{tally}
use matador.Tun2socks.Tally.{step-tally}
use matador.Tun2socks.Left.{AllSound}
use matador.Tun2socks.Arguments.{Options}
use matador.Tun2socks.Setup.{AuthInfo, Readers}
use matador.Tun2socks.Accept.{BAddr, Accepting, AcceptResult, listener_accept_func}
use matador.Tun2socks.Accepts.{makes_name, gets_client, listener_accept_func-Runs}
use matador.Tun2socks.Begin.{Begin, tun2socks_init}
use matador.Tun2socks.Loop.{LwipStart, LoopEvent}
use matador.Tun2socks.Halves.{init_then_run}
use matador.Tun2socks.Exit.{EndsReleased, tun2socks_init-released}
use matador.Tun2socks.Clients.{Clients, list_append, put_back, on_client}

-- The client at place `i` is there, and the event can come to it.
abbrev pub CanCome : Event → ℕ → ℕ → List Client → Type 0
CanCome e i num [] = ⊥
CanCome e zero num (c ∷ cs) = IsEnabled e (record c { num_clients = num })
CanCome e (suc i) num (c ∷ cs) = CanCome e i num cs

-- What the clients can be, from `tun2socks_init` on: the device opens connections, and events come to
-- the clients, in any order.
pub data ReachesAll : Clients → Type 0 where
  begun : ReachesAll (record { num_clients = 0; tcp_clients = [] })
  accepts :
      (a : Accepting) (server : BAddr) (username : Option Bytes) (append_source : Bool)
      (auth : List AuthInfo) {s : Clients} {r : AcceptResult}
      → ReachesAll s
      → a.err_ok ≡ true
      → listener_accept_func a server s.num_clients username append_source auth ≡ some r
      → ReachesAll (list_append s r.client)
  goes_on :
      (k : Lwip) (e : Event) (i : ℕ) {s t : Clients}
      → ReachesAll s
      → CanCome e i s.num_clients s.tcp_clients
      → on_client k e i s.num_clients s.tcp_clients ≡ some t
      → ReachesAll t

-- All clients in the list are sound, and `num_clients` is their number.
pub record IsCounted (s : Clients) : Type 0 where
  pub sound : AllSound s.tcp_clients
  pub number : s.num_clients ≡ length s.tcp_clients

AllSound-append :
    (cs : List Client) (c : Client) → AllSound cs → IsSound c → AllSound (cs ++ c ∷ [])
AllSound-append [] c all s = (s, tt)
AllSound-append (d ∷ cs) c all s = (all.0, AllSound-append cs c all.1 s)

list_append-IsCounted :
    (s : Clients) (junk : Option Bytes)
    → IsCounted s
    → IsCounted (list_append s (some (accepted s.num_clients junk)))
unfolding list_append accepted
list_append-IsCounted s junk h = record {
  sound = AllSound-append s.tcp_clients _ h.sound (accepted-IsSound s.num_clients junk);
  number = omega (arith, h.number, length-append s.tcp_clients (accepted s.num_clients junk ∷ []));
}

accepts-IsCounted :
    (s : Clients) (o : Option Client) (junk : Option Bytes) (success : Bool)
    → IsCounted s
    → o ≡ (if success then some (accepted s.num_clients junk) else none)
    → IsCounted (list_append s o)
unfolding list_append
accepts-IsCounted s o junk true h e = rw e (list_append-IsCounted s junk h)
accepts-IsCounted s o junk false h e = rw e h

-- The clients in place of `cs`, with `num_clients` at `num` before.
record Counts (num : ℕ) (cs : List Client) (t : Clients) : Type 0 where
  sound : AllSound t.tcp_clients
  difference : t.num_clients + length cs ≡ num + length t.tcp_clients

kept-AllSound :
    (kept : Bool) (d : Client) (cs : List Client)
    → (kept ≡ true → IsSound d)
    → AllSound cs
    → AllSound (if kept then d ∷ cs else cs)
kept-AllSound true d cs s all = (s refl, all)
kept-AllSound false d cs s all = all

length-kept :
    (kept : Bool) (d : Client) (cs : List Client)
    → length (if kept then d ∷ cs else cs) + (if kept then 0 else 1) ≡ suc (length cs)
length-kept true d cs = omega arith
length-kept false d cs = omega arith

put_back-Counts :
    (num : ℕ) (c : Client) (cs : List Client) (d : Client)
    → AllSound cs
    → c.live ≡ true
    → tally d ≡ tally (record c { num_clients = num })
    → Fares d
    → Counts num (c ∷ cs) (put_back d cs)
put_back-Counts num c cs d all alive same fares = record {
  sound = kept-AllSound d.live d cs (live-IsSound d fares) all;
  difference = ground (arith, alive, same, length-kept d.live d cs);
}

on_client-Counts :
    (k : Lwip) (e : Event) (i num : ℕ) (cs : List Client)
    → AllSound cs
    → 0 < num
    → CanCome e i num cs
    → Runs (Counts num cs) (on_client k e i num cs)
unfolding on_client
on_client-Counts k e i num [] all pos h = absurd h
on_client-Counts k e zero num (c ∷ cs) all pos h =
    let now : Client = record c { num_clients = num } in
    let s = all.0 in
    let sound : IsSound now = record {
      alive = s.alive;
      counted = pos;
      room = s.room;
      one_open = s.one_open;
      recv_open = s.recv_open;
      sent_open = s.sent_open;
      waiting = s.waiting;
      owes_client = s.owes_client;
      owes_socks = s.owes_socks;
    } in
    Runs-bind (λ d. some (put_back d cs)) (step-Runs k e now sound h)
      λ d f fares.
        Runs-some _ (put_back-Counts num c cs d all.1 s.alive ((step-tally k e now).at d f) fares)
on_client-Counts k e (suc i) num (c ∷ cs) all pos h =
    Runs-bind _ (on_client-Counts k e i num cs all.1 pos h) λ t _ q.
      Runs-some _ (record { sound = (all.0, q.sound); difference = omega (arith, q.difference) })

some_client : (e : Event) (i num : ℕ) (cs : List Client) → CanCome e i num cs → 0 < length cs
some_client e i num [] h = absurd h
some_client e i num (c ∷ cs) h = omega arith

on_client-IsCounted :
    (k : Lwip) (e : Event) (i : ℕ) (s : Clients)
    → IsCounted s
    → CanCome e i s.num_clients s.tcp_clients
    → Runs IsCounted (on_client k e i s.num_clients s.tcp_clients)
on_client-IsCounted k e i s c h =
    Runs-map (λ t q. record { sound = q.sound; number = omega (arith, q.difference, c.number) })
      (on_client-Counts k e i s.num_clients s.tcp_clients c.sound
        (omega (arith, c.number, some_client e i s.num_clients s.tcp_clients h)) h)

-- Whatever connections are opened and whatever events have come, the clients in the list are sound, and
-- `num_clients` is their number.
pub ReachesAll-IsCounted : (s : Clients) → ReachesAll s → IsCounted s
ReachesAll-IsCounted s begun = record { sound = tt; number = refl }
ReachesAll-IsCounted s (accepts a server username append_source auth {s = b} {r = r} h fine made) =
    let named = makes_name username append_source in
    accepts-IsCounted b r.client a.junk (gets_client a named) (ReachesAll-IsCounted b h)
      (Runs-at (listener_accept_func-Runs a server b.num_clients username append_source auth fine)
        made).0
ReachesAll-IsCounted s (goes_on k e i {s = b} h come made) =
    Runs-at (on_client-IsCounted k e i b (ReachesAll-IsCounted b h) come) made

-- Whatever the libraries answer, whatever events come, and whatever has happened to the clients, a
-- program that calls `tun2socks_init` and, if it returns 0, `tun2socks_run` gets through both without
-- a failed assertion. A start that fails returns 1, with what it made released once, in the reverse
-- order, and nothing else. Behind a run all that was made is released so, and as many clients as were
-- left are freed, with `num_clients` at 0 in the end.
pub init_then_run-released :
    (r : Readers) (n : ℕ) (a : Begin) (old : Options) (dev : Option Bytes) (ip mask server : Bytes)
    (callback : Bool) (k : LwipStart) (es : List LoopEvent) (s : Clients)
    → ReachesAll s
    → Runs (EndsReleased s.num_clients) (
        init_then_run k es s.num_clients s.tcp_clients
          (tun2socks_init r n a old dev ip mask server callback))
init_then_run-released r n a old dev ip mask server callback k es s h =
    let c = ReachesAll-IsCounted s h in
    tun2socks_init-released r n a old dev ip mask server callback k es s.num_clients s.tcp_clients
      c.sound c.number
