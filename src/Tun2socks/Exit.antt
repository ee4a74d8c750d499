-- ===== src/Tun2socks/Exit.antt =====
-- tun2socks.c: the program from `tun2socks_init` to the end of `tun2socks_run`.
use matador.Base.{
  ℕ, ◌≡◌, refl, ◌∙◌, Bool, true, false, not, Option, none, some, List, [], ◌∷◌, ◌++◌, length,
  if◌then◌else◌, Runs, Runs-some, Runs-bind, Ensures, Ensures-some, Ensures-bind, Ensures-none,
  Ensures-if,
}
use matador.Memory.{Bytes}
use matador.Tun2socks.{Client}
use matador.Tun2socks.Arguments.{Options}
use matador.Tun2socks.Setup.{
  IpAddr, is_ipv4, Readers, Processed, only_ipv4, netif_ip6, socks_auth, process_arguments,
}
use matador.Tun2socks.Begin.{
  SetupCall, set_tcp_timer, Begin, Started, returned, ready, init_options, init_stage,
  init_processed, tun2socks_init, made, blog, open_standard_streams, network_init, made_contents,
  time_init, reactor, signals, tap, reading, read_buffer, lwip_job, set_lwip_job, fail1, fail2,
  fail3, fail4, fail5, write_buffer, tcp_timer,
}
use matador.Tun2socks.Loop.{LwipStart, LoopEvent, tun2socks_run, teardown}
use matador.Tun2socks.Halves.{channel_levels-none, Ended, not_started, has_run, init_then_run}
use matador.Tun2socks.Left.{AllSound, AllFreed, free_clients-AllFreed}
use matador.Tun2socks.Released.{replay, replay-append, base, held, teardown-replay}
use matador.Tun2socks.Kept.{IsReady, event_loop-Keeps}

-- The netif's addresses are IPv4 addresses.
only_ipv4-Ensures : (o : Option IpAddr) → Ensures (λ a. is_ipv4 a ≡ true) (only_ipv4 o)
only_ipv4-Ensures none = Ensures-none
only_ipv4-Ensures (some a) = Ensures-if (is_ipv4 a) _ _ (λ h. Ensures-some a h) λ _. Ensures-none

abbrev HasIpv4 : Processed → Type 0
HasIpv4 p = (is_ipv4 p.netif_ipaddr ≡ true) × (is_ipv4 p.netif_netmask ≡ true)

process_arguments-HasIpv4 :
    (r : Readers) (o : Options) (ip mask server : Bytes)
    → Ensures HasIpv4 (process_arguments r o ip mask server)
unfolding process_arguments
process_arguments-HasIpv4 r o ip mask server = Ensures-bind (only_ipv4 (r.resolve ip)) _ λ a ea.
    Ensures-bind (only_ipv4 (r.resolve mask)) _ λ m em.
      Ensures-bind (netif_ip6 r o.netif_ip6addr) _ λ six _.
        Ensures-bind (r.parse_addr server) _ λ socks _.
          Ensures-bind (socks_auth r o o.username) _ λ auth _. Ensures-some _ (
            (only_ipv4-Ensures (r.resolve ip)).at a ea,
            (only_ipv4-Ensures (r.resolve mask)).at m em,
          )

-- A start that fails returns 1 with nothing left; one that does not is ready.
abbrev pub StartsWell : Started → Type 0
StartsWell (returned code calls) = (code ≡ 1) × (replay [] calls ≡ some [])
StartsWell (ready g) = IsReady g

abbrev begun : List SetupCall
begun = open_standard_streams ∷ made blog ∷ network_init ∷ []

abbrev read : Option Bytes → List SetupCall
read c = begun ++ (made_contents c ++ (time_init ∷ []))

-- At each label, what was made up to there is released.
label-1 : (c : Option Bytes) → replay [] (read c ++ fail1 c) ≡ some []
unfolding replay
label-1 none = refl
label-1 (some b) = refl

label-2 : (c : Option Bytes) → replay [] (read c ++ (made reactor ∷ fail2 c)) ≡ some []
unfolding replay
label-2 none = refl
label-2 (some b) = refl

label-3 :
    (c : Option Bytes) → replay [] (read c ++ (made reactor ∷ made signals ∷ fail3 c)) ≡ some []
unfolding replay
label-3 none = refl
label-3 (some b) = refl

label-4 :
    (c : Option Bytes)
    → replay [] (read c ++ (made reactor ∷ made signals ∷ made tap ∷ made reading ∷ fail4 c))
      ≡ some []
unfolding replay
label-4 none = refl
label-4 (some b) = refl

label-5 :
    (c : Option Bytes)
    → replay [] (
        read c
        ++ (made reactor
            ∷ made signals
            ∷ made tap
            ∷ made reading
            ∷ made read_buffer
            ∷ made lwip_job
            ∷ set_lwip_job
            ∷ fail5 c))
      ≡ some []
unfolding replay
label-5 none = refl
label-5 (some b) = refl

all_made :
    (c : Option Bytes)
    → replay [] (
        read c
        ++ (made reactor
            ∷ made signals
            ∷ made tap
            ∷ made reading
            ∷ made read_buffer
            ∷ made lwip_job
            ∷ set_lwip_job
            ∷ made write_buffer
            ∷ made tcp_timer
            ∷ set_tcp_timer
            ∷ []))
      ≡ some (base c)
unfolding replay
all_made none = refl
all_made (some b) = refl

if-StartsWell :
    (b : Bool) (s t : Started) → StartsWell s → StartsWell t → StartsWell (if b then s else t)
if-StartsWell true s t h k = h
if-StartsWell false s t h k = k

init_stage-StartsWell :
    (callback : Bool) (a : Begin) (o : Options) (p : Processed)
    → HasIpv4 p
    → StartsWell (init_stage callback a o p begun)
unfolding init_stage
init_stage-StartsWell callback a o p h =
    let c = p.password_file_contents in
    if-StartsWell (not a.reactor_ok) _ _ (refl, label-1 c)
      (if-StartsWell (not a.signals_ok) _ _ (refl, label-2 c)
        (if-StartsWell (not a.tap_ok) _ _ (refl, label-3 c)
          (if-StartsWell (not a.read_buffer_ok) _ _ (refl, label-4 c)
            (if-StartsWell (not a.write_buffer_ok) _ _ (refl, label-5 c)
              (record {
                going = refl;
                no_netif = refl;
                no_listener = refl;
                no_listener_ip6 = refl;
                ipaddr_4 = h.0;
                netmask_4 = h.1;
                holds = all_made c;
              })))))

init_processed-StartsWell :
    (callback : Bool) (a : Begin) (o : Options) (p : Option Processed)
    → Ensures HasIpv4 p
    → StartsWell (init_processed callback a o p begun)
unfolding init_processed replay
init_processed-StartsWell callback a o none h = (refl, refl)
init_processed-StartsWell callback a o (some p) h =
    init_stage-StartsWell callback a o p (h.at p refl)

tun2socks_init-StartsWell :
    (r : Readers) (n : ℕ) (a : Begin) (old : Options) (dev : Option Bytes) (ip mask server : Bytes)
    (callback : Bool)
    → StartsWell (tun2socks_init r n a old dev ip mask server callback)
unfolding tun2socks_init replay
tun2socks_init-StartsWell r n a old dev ip mask server callback =
    let o = init_options old dev ip mask server in
    rw (channel_levels-none o 0 n refl refl) (
      if-StartsWell (not a.network_ok) _ _ (refl, refl)
        (init_processed-StartsWell callback a o _ (process_arguments-HasIpv4 r o ip mask server)))

-- A start that fails has released what it made; a run has, too, and has freed the clients.
abbrev pub EndsReleased : ℕ → Ended → Type 0
EndsReleased num (not_started code calls) = (code ≡ 1) × (replay [] calls ≡ some [])
EndsReleased num (has_run calls clients) = (replay [] calls ≡ some []) × AllFreed num clients

init_then_run-Runs :
    (k : LwipStart) (es : List LoopEvent) (num : ℕ) (clients : List Client) (s : Started)
    → StartsWell s
    → AllSound clients
    → num ≡ length clients
    → Runs (EndsReleased num) (init_then_run k es num clients s)
unfolding tun2socks_run
init_then_run-Runs k es num clients (returned code calls) w sound counted = Runs-some _ w
init_then_run-Runs k es num clients (ready g) w sound counted =
    Runs-bind _
      (Runs-bind _ (event_loop-Keeps k es g w) λ g' _ keeps.
        Runs-bind _ (free_clients-AllFreed clients num sound counted) λ ds _ freed.
          Runs-some {P = λ r. (replay [] r.0 ≡ some []) × AllFreed num r.1}
            (g'.calls ++ teardown g', ds)
            (replay-append [] (held g') g'.calls (teardown g') keeps ∙ teardown-replay g', freed))
      λ r _ q. Runs-some _ q

-- With any clients that are sound and counted when the event loop ends.
pub tun2socks_init-released :
    (r : Readers) (n : ℕ) (a : Begin) (old : Options) (dev : Option Bytes) (ip mask server : Bytes)
    (callback : Bool) (k : LwipStart) (es : List LoopEvent) (num : ℕ) (clients : List Client)
    → AllSound clients
    → num ≡ length clients
    → Runs
        (EndsReleased num)
        (init_then_run k es num clients (tun2socks_init r n a old dev ip mask server callback))
tun2socks_init-released r n a old dev ip mask server callback k es num clients sound counted =
    init_then_run-Runs k es num clients _
      (tun2socks_init-StartsWell r n a old dev ip mask server callback) sound counted
