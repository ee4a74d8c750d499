-- ===== src/Tun2socks/Released.antt =====
-- tun2socks.c: what is made between `tun2socks_init` and the end of `tun2socks_run`, and its release.
use matador.Base.{
  ℕ, ◌≡◌, refl, ap, ◌∙◌, arith, Bool, true, false, not, Option, none, some, List, [], ◌∷◌, ◌++◌,
  ◌==◌, ==_self, if◌then◌else◌, ◌>>=◌, inl, inr, Option-cases, Runs, Runs-some, Runs-if,
}
use mathlib.Core.Option.{some-injective}
use matador.Memory.{Bytes}
use matador.Tun2socks.Arguments.{is_given}
use matador.Tun2socks.Begin.{
  Thing, SetupCall, made, freed, blog, password_contents, reactor, signals, tap, reading,
  read_buffer, lwip_job, write_buffer, tcp_timer, netif, listener, listener_ip6, Globals,
  free_contents, reactor_quit, bind_to_netif, accept,
}
use matador.Tun2socks.Loop.{
  calling, teardown, terminate, init_failed, Listening, LwipStart, listen_ip6, listen,
}

abbrev pub number : Thing → ℕ
number blog = 0
number password_contents = 1
number reactor = 2
number signals = 3
number tap = 4
number reading = 5
number read_buffer = 6
number lwip_job = 7
number write_buffer = 8
number tcp_timer = 9
number netif = 10
number listener = 11
number listener_ip6 = 12

-- The things that are there, the last one first: only that may be released.
abbrev pub release : List Thing → Thing → Option (List Thing)
release [] t = none
release (s ∷ there) t = if number s == number t then some there else none

abbrev pub replay_call : SetupCall → List Thing → Option (List Thing)
replay_call (made t) there = some (t ∷ there)
replay_call (freed t) there = release there t
replay_call _ there = some there

unfoldable pub replay : List Thing → List SetupCall → Option (List Thing)
replay there [] = some there
replay there (c ∷ cs) = replay_call c there >>= λ there'. replay there' cs

pub replay-append :
    (there there' : List Thing) (xs ys : List SetupCall)
    → replay there xs ≡ some there'
    → replay there (xs ++ ys) ≡ replay there' ys
unfolding replay
replay-append there there' [] ys h = ap (λ s. replay s ys) (some-injective there there' h)
replay-append there there' (x ∷ xs) ys h = elim (Option-cases (replay_call x there)) [
  | inl fault ↦ absurd (ground (arith, fault, h))
  | inr (s, e) ↦ rw e (replay-append s there' xs ys (rw e at h))
]

-- What `tun2socks_init` has made, with the password file if there is one.
abbrev pub base : Option Bytes → List Thing
base contents =
    tcp_timer
    ∷ write_buffer
    ∷ lwip_job
    ∷ read_buffer
    ∷ reading
    ∷ tap
    ∷ signals
    ∷ reactor
    ∷ (if is_given contents then password_contents ∷ blog ∷ [] else blog ∷ [])

-- What the variables say is there.
abbrev pub held : Globals → List Thing
held g =
    (if g.has_listener_ip6 then listener_ip6 ∷ [] else [])
    ++ ((if g.has_listener then listener ∷ [] else [])
        ++ ((if g.have_netif then netif ∷ [] else []) ++ base g.processed.password_file_contents))

abbrev pub Holds : Globals → Type 0
Holds g = replay [] g.calls ≡ some (held g)

pub calling-Holds :
    (g : Globals) (cs : List SetupCall) (there : List Thing)
    → Holds g
    → replay (held g) cs ≡ some there
    → replay [] (g.calls ++ cs) ≡ some there
calling-Holds g cs there h e = replay-append [] (held g) g.calls cs h ∙ e

-- The pair of a thing that may be there and its release.
replay-if :
    (b : Bool) (t : Thing) (there : List Thing) (cs : List SetupCall)
    → replay ((if b then t ∷ [] else []) ++ there) ((if b then freed t ∷ [] else []) ++ cs)
      ≡ replay there cs
unfolding replay
replay-if true t there cs = rw (==_self (number t)) refl
replay-if false t there cs = refl

replay-base :
    (contents : Option Bytes)
    → replay (base contents) (
        freed tcp_timer
        ∷ freed write_buffer
        ∷ freed lwip_job
        ∷ freed read_buffer
        ∷ freed reading
        ∷ freed tap
        ∷ freed signals
        ∷ freed reactor
        ∷ (free_contents contents ++ (freed blog ∷ [])))
      ≡ some []
unfolding replay
replay-base none = refl
replay-base (some b) = refl

-- The teardown releases what the variables say, in the reverse order.
pub teardown-replay : (g : Globals) → replay (held g) (teardown g) ≡ some []
unfolding teardown
teardown-replay g =
    replay-if g.has_listener_ip6 listener_ip6 _ _
    ∙ (replay-if g.has_listener listener _ _
        ∙ (replay-if g.have_netif netif _ _ ∙ replay-base g.processed.password_file_contents))

-- A handler keeps what the variables say true.
abbrev pub Keeps : Option Globals → Type 0
Keeps = Runs Holds

pub terminate-Keeps : (g : Globals) → g.quitting ≡ false → Holds g → Keeps (terminate g)
unfolding terminate replay
terminate-Keeps g h held_now =
    rw h (Runs-some _ (calling-Holds g (reactor_quit ∷ []) (held g) held_now refl))

init_failed-Keeps : (g : Globals) → Holds g → Keeps (init_failed g)
init_failed-Keeps g h =
    Runs-if (not g.quitting) _ _ (λ e. terminate-Keeps g (ground (arith, e)) h) λ _. Runs-some _ h

-- Behind calls that leave what is there as it is.
pub failed_after-Keeps :
    (g : Globals) (cs : List SetupCall)
    → Holds g
    → replay (held g) cs ≡ some (held g)
    → Keeps (init_failed (calling cs g))
failed_after-Keeps g cs h e = init_failed-Keeps (calling cs g) (calling-Holds g cs (held g) h e)

listen_ip6-Keeps :
    (a : Listening) (g : Globals) → g.has_listener_ip6 ≡ false → Holds g → Keeps (listen_ip6 a g)
unfolding listen_ip6 replay
listen_ip6-Keeps a g fresh h =
    let undone : List SetupCall = made listener_ip6 ∷ bind_to_netif ∷ freed listener_ip6 ∷ [] in
    Runs-if (not a.created) _ _ (λ _. init_failed-Keeps g h)
      λ _.
        Runs-if (not a.bound) _ _ (λ _. failed_after-Keeps g undone h refl)
          λ _.
            Runs-if (not a.listens) _ _ (λ _. failed_after-Keeps g undone h refl)
              λ _. Runs-some _ (calling-Holds g _ _ h (rw fresh refl))

pub listen-Keeps :
    (a : LwipStart) (g : Globals)
    → g.has_listener ≡ false
    → g.has_listener_ip6 ≡ false
    → Holds g
    → Keeps (listen a g)
unfolding listen replay
listen-Keeps a g fresh fresh6 h =
    let undone : List SetupCall = made listener ∷ bind_to_netif ∷ freed listener ∷ [] in
    let up : Globals =
      calling (made listener ∷ bind_to_netif ∷ accept ∷ []) (record g { has_listener = true }) in
    let now : Holds up = calling-Holds g _ _ h (rw (fresh, fresh6) refl) in
    Runs-if (not a.ip4.created) _ _ (λ _. init_failed-Keeps g h)
      λ _.
        Runs-if (not a.ip4.bound) _ _ (λ _. failed_after-Keeps g undone h refl)
          λ _.
            Runs-if (not a.ip4.listens) _ _ (λ _. failed_after-Keeps g undone h refl)
              λ _.
                Runs-if g.has_ip6addr _ _ (λ _. listen_ip6-Keeps a.ip6 up fresh6 now)
                  λ _. Runs-some up now
