-- ===== src/Tun2socks/Halves.antt =====
-- tun2socks.c: `tun2socks_main` beside `tun2socks_init` and `tun2socks_run`.
use matador.Base.{
  ℕ, ◌≡◌, refl, ap, ◌∙◌, Bool, true, false, not, Option, none, some, List, [], ◌∷◌, append_assoc,
  if◌then◌else◌, ◌>>=◌, Bool-cases, inl, inr, Option-cases,
}
use matador.Base.{zero, suc, ◌+◌}
use matador.Base.Int.{minus_one}
use matador.Memory.{Bytes}
use matador.Tun2socks.{Client}
use matador.Tun2socks.Arguments.{Options, LogNames, initial}
use matador.Tun2socks.CommandLine.{
  Item, ipaddr, netmask, socks_addr, tundev, print_items, parse_arguments-print_items,
}
use matador.Tun2socks.Setup.{Processed, Readers, process_arguments}
use matador.Tun2socks.Begin.{
  SetupCall, Begin, Started, returned, ready, init_options, init_stage, init_processed,
  tun2socks_init, channel_levels,
}
use matador.Tun2socks.Loop.{LwipStart, LoopEvent, event_loop, free_clients, tun2socks_run}
use matador.Tun2socks.Program.{
  main_reactor, main_signals, main_tap, main_read_buffer, main_write_buffer, main_network,
  main_options, main_started, main_runs, tun2socks_main,
}

-- How a program ends that starts with `tun2socks_init`, and calls `tun2socks_run` if it has returned 0:
-- with the failure of the start, or with what the run has done.
pub data Ended : Type 0 where
  not_started : ℕ → List SetupCall → Ended
  has_run : List SetupCall → List Client → Ended

-- The two calls in tunnel.c.
abbrev pub init_then_run : LwipStart → List LoopEvent → ℕ → List Client → Started → Option Ended
init_then_run k es num clients (returned code calls) = some (not_started code calls)
init_then_run k es num clients (ready g) =
    tun2socks_run k es num clients g >>= λ r. some (has_run r.0 r.1)

-- What `tun2socks_main` returns and does in each of these cases.
abbrev pub main_result : Ended → ℕ × List SetupCall × List Client
main_result (not_started code calls) = (code, calls, [])
main_result (has_run calls clients) = (1, calls, clients)

abbrev pub main_results : Option Ended → Option (ℕ × List SetupCall × List Client)
main_results m = m >>= λ e. some (main_result e)

if-cong :
    {A : Type 0} (b : Bool) {x y z w : A}
    → x ≡ y
    → z ≡ w
    → (if b then x else z) ≡ (if b then y else w)
if-cong true e f = e
if-cong false e f = f

-- The steps from the reactor on are the same.
main_reactor-init_processed :
    (a : Begin) (o : Options) (p : Option Processed) (done : List SetupCall)
    → main_reactor a o p done ≡ init_processed false a o p done
unfolding main_reactor main_signals main_tap main_read_buffer main_write_buffer init_processed
    init_stage
main_reactor-init_processed a o none done = refl
main_reactor-init_processed a o (some p) done = if-cong (not a.reactor_ok) (simp append_assoc) (
    if-cong (not a.signals_ok) (simp append_assoc) (
      if-cong (not a.tap_ok) (simp append_assoc) (
        if-cong (not a.read_buffer_ok) (simp append_assoc)
          (if-cong (not a.write_buffer_ok) (simp append_assoc) (simp append_assoc)))))

main_runs-init_then_run :
    (k : LwipStart) (es : List LoopEvent) (num : ℕ) (clients : List Client) (s : Started)
    → main_runs k es num clients s ≡ main_results (init_then_run k es num clients s)
unfolding tun2socks_run
main_runs-init_then_run k es num clients (returned code calls) = refl
main_runs-init_then_run k es num clients (ready g) = elim (Option-cases (event_loop k es g)) [
  | inl fault ↦ rw fault refl
  | inr (g', ran) ↦ rw ran (elim (Option-cases (free_clients num clients)) [
    | inl fault ↦ rw fault refl
    | inr (ds, frees) ↦ rw frees refl
  ])
]

-- No channel has a level.
pub channel_levels-none :
    (o : Options) (i n : ℕ)
    → o.loglevel ≡ minus_one
    → o.loglevels ≡ (λ _. minus_one)
    → channel_levels o i n ≡ []
unfolding channel_levels
channel_levels-none o i zero h g = refl
channel_levels-none o i (suc n) h g = rw (h, g) (channel_levels-none o (i + 1) n h g)

abbrev pub device_item : Option Bytes → List Item
device_item none = []
device_item (some dev) = tundev dev ∷ []

-- The options of such a command line.
abbrev pub line_options : Bytes → Option Bytes → Bytes → Bytes → Bytes → Options
line_options name dev ip mask server = record (initial name) {
  tundev = dev;
  netif_ipaddr = some ip;
  netif_netmask = some mask;
  socks_server_addr = some server;
}

module _ (r : Readers) (n : ℕ) (a : Begin) (old : Options) (name : Bytes) (dev : Option Bytes)
    (ip mask server : Bytes) where
  init_processed-same :
      (p : Option Processed) (done : List SetupCall)
      → init_processed false a (line_options name dev ip mask server) p done
        ≡ init_processed false a (init_options old dev ip mask server) p done
  unfolding init_processed init_stage
  init_processed-same none done = refl
  init_processed-same (some p) done = refl

  main_options-init :
      main_options r n a (line_options name dev ip mask server)
      ≡ some (tun2socks_init r n a old dev ip mask server false)
  unfolding main_options main_network tun2socks_init process_arguments
  main_options-init =
      let o = line_options name dev ip mask server in
      rw (channel_levels-none o 0 n refl refl) (elim (Bool-cases a.network_ok) [
        | inr failed ↦ rw failed refl
        | inl fine ↦ rw fine (
            ap some (
              main_reactor-init_processed a o (process_arguments r o ip mask server) _
              ∙ init_processed-same (process_arguments r o ip mask server) _))
      ])

-- `tun2socks_main` on a command line with the addresses, and a device or none, does what
-- `tun2socks_init` without a callback and then `tun2socks_run` do with these, whatever `options` was
-- before: the same calls in the same order, and the same clients freed. It returns what a
-- `tun2socks_init` that fails returns, and 1 behind a run.
pub tun2socks_main-init_then_run :
    (l : LogNames) (r : Readers) (n : ℕ) (a : Begin) (k : LwipStart) (es : List LoopEvent) (num : ℕ)
    (clients : List Client) (old : Options) (name : Bytes) (dev : Option Bytes)
    (ip mask server : Bytes)
    → tun2socks_main l r n a k es num clients
        (name ∷ print_items (ipaddr ip ∷ netmask mask ∷ socks_addr server ∷ device_item dev))
      ≡ main_results
          (init_then_run k es num clients (tun2socks_init r n a old dev ip mask server false))
unfolding tun2socks_main main_started
tun2socks_main-init_then_run l r n a k es num clients old name none ip mask server =
    rw
      (parse_arguments-print_items l name (ipaddr ip ∷ netmask mask ∷ socks_addr server ∷ [])
        (tt, (tt, (tt, tt))))
      (rw (main_options-init r n a old name none ip mask server)
        (main_runs-init_then_run k es num clients _))
tun2socks_main-init_then_run l r n a k es num clients old name (some dev) ip mask server =
    rw
      (parse_arguments-print_items l name
        (ipaddr ip ∷ netmask mask ∷ socks_addr server ∷ tundev dev ∷ []) (tt, (tt, (tt, (tt, tt)))))
      (rw (main_options-init r n a old name (some dev) ip mask server)
        (main_runs-init_then_run k es num clients _))
