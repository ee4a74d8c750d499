-- ===== src/Tun2socks/Program.antt =====
-- tun2socks.c: `tun2socks_main`, the program that BadVPN makes of this file: `tun2socks_init` and
-- `tun2socks_run` are two halves of it. It has no callback for the packets. What it prints is left out.
use matador.Base.{
  ℕ, Bool, true, false, not, Option, none, some, List, [], ◌∷◌, ◌++◌, if◌then◌else◌, ◌>>=◌,
}
use matador.Memory.{Bytes}
use matador.Tun2socks.{Client}
use matador.Tun2socks.Arguments.{Logger, stdout, syslog, Options, LogNames, parse_arguments}
use matador.Tun2socks.Setup.{Processed, Readers, process_arguments}
use matador.Tun2socks.Begin.{
  SetupCall, made, open_standard_streams, network_init, time_init, set_lwip_job, set_tcp_timer,
  blog, reactor, signals, tap, reading, read_buffer, lwip_job, write_buffer, tcp_timer,
  channel_levels, Begin, Started, returned, ready, made_contents, fail1, fail2, fail3, fail4, fail5,
}
use matador.Tun2socks.Arguments.{is_given}
use matador.Tun2socks.Loop.{LwipStart, LoopEvent, event_loop, free_clients, teardown}

-- `BLog_InitStdout` or `BLog_InitSyslog`: `false` goes to the label `fail0`.
abbrev pub log_opens : Begin → Logger → Bool
log_opens a stdout = true
log_opens a syslog = a.syslog_ok

-- Each step with what is released if it fails, from the reactor on; `so_far` are the calls up to there.
unfoldable pub main_write_buffer : Begin → Options → Processed → List SetupCall → Started
main_write_buffer a o p so_far =
    let here = so_far ++ (made read_buffer ∷ made lwip_job ∷ set_lwip_job ∷ []) in
    if not a.write_buffer_ok
    then returned 1 (here ++ fail5 p.password_file_contents)
    else ready (record {
      has_callback = false;
      has_ip6addr = is_given o.netif_ip6addr;
      processed = p;
      quitting = false;
      have_netif = false;
      has_listener = false;
      has_listener_ip6 = false;
      calls = here ++ (made write_buffer ∷ made tcp_timer ∷ set_tcp_timer ∷ []);
    })

unfoldable pub main_read_buffer : Begin → Options → Processed → List SetupCall → Started
main_read_buffer a o p so_far =
    let here = so_far ++ (made tap ∷ made reading ∷ []) in
    if not a.read_buffer_ok
    then returned 1 (here ++ fail4 p.password_file_contents)
    else main_write_buffer a o p here

unfoldable pub main_tap : Begin → Options → Processed → List SetupCall → Started
main_tap a o p so_far =
    let here = so_far ++ (made signals ∷ []) in
    if not a.tap_ok
    then returned 1 (here ++ fail3 p.password_file_contents)
    else main_read_buffer a o p here

unfoldable pub main_signals : Begin → Options → Processed → List SetupCall → Started
main_signals a o p so_far =
    let here = so_far ++ (made reactor ∷ []) in
    if not a.signals_ok
    then returned 1 (here ++ fail2 p.password_file_contents)
    else main_tap a o p here

unfoldable pub main_reactor : Begin → Options → Option Processed → List SetupCall → Started
main_reactor a o none so_far = returned 1 (so_far ++ fail1 none)
main_reactor a o (some p) so_far =
    let here = so_far ++ (made_contents p.password_file_contents ++ (time_init ∷ [])) in
    if not a.reactor_ok
    then returned 1 (here ++ fail1 p.password_file_contents)
    else main_signals a o p here

-- The options that are required are not NULL if `parse_arguments` accepts them; NULL is a fault.
abbrev pub main_processed : Readers → Options → Option (Option Processed)
main_processed r o = do
  ipaddr ← o.netif_ipaddr
  netmask ← o.netif_netmask
  server ← o.socks_server_addr
  some (process_arguments r o ipaddr netmask server)

unfoldable pub main_network : Readers → Begin → Options → List SetupCall → Option Started
unfolding main_reactor main_signals main_tap main_read_buffer main_write_buffer
main_network r a o so_far =
    let here = so_far ++ (network_init ∷ []) in
    if not a.network_ok
    then some (returned 1 (here ++ fail1 none))
    else main_processed r o >>= λ p. some (main_reactor a o p here)

-- Behind the options.
unfoldable pub main_options : Readers → ℕ → Begin → Options → Option Started
unfolding main_network
main_options r n a o =
    if o.help
    then some (returned 0 (open_standard_streams ∷ []))
    else if o.version
    then some (returned 0 (open_standard_streams ∷ []))
    else if not (log_opens a o.logger)
    then some (returned 1 (open_standard_streams ∷ []))
    else main_network r a o (open_standard_streams ∷ made blog ∷ channel_levels o 0 n)

-- The result of `parse_arguments`.
abbrev pub main_parsed : Readers → ℕ → Begin → Option Options → Option Started
main_parsed r n a none = some (returned 1 (open_standard_streams ∷ []))
main_parsed r n a (some o) = main_options r n a o

unfoldable pub main_started : LogNames → Readers → ℕ → Begin → List Bytes → Option Started
main_started l r n a [] = some (returned 1 [])
main_started l r n a (name ∷ args) = main_parsed r n a (parse_arguments l (name ∷ args))

-- The event loop and what is behind it.
abbrev pub main_runs :
    LwipStart
    → List LoopEvent
    → ℕ
    → List Client
    → Started
    → Option (ℕ × List SetupCall × List Client)
main_runs k es num clients (returned code calls) = some (code, calls, [])
main_runs k es num clients (ready g) = do
  g' ← event_loop k es g
  freed_clients ← free_clients num clients
  some (1, g'.calls ++ teardown g', freed_clients)

unfoldable pub tun2socks_main :
    LogNames
    → Readers
    → ℕ
    → Begin
    → LwipStart
    → List LoopEvent
    → ℕ
    → List Client
    → List Bytes
    → Option (ℕ × List SetupCall × List Client)
unfolding main_started
tun2socks_main l r n a k es num clients args =
    main_started l r n a args >>= main_runs k es num clients
