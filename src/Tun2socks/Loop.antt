-- ===== src/Tun2socks/Loop.antt =====
-- tun2socks.c: the handlers of the event loop that are not a client's, which are the start of lwIP, the
-- timer, signals and errors of the device, and `tun2socks_run`. What lwIP answers is an argument.
use matador.Base.{ℕ, Bool, true, not, ◌&&◌, Option, some, List, [], ◌∷◌, ◌++◌, if◌then◌else◌, ◌>>=◌}
use matador.Tun2socks.{Client, require}
use matador.Tun2socks.Closing.{client_murder}
use matador.Tun2socks.Setup.{is_ipv4}
use matador.Tun2socks.Begin.{
  SetupCall, made, freed, lwip_init, netif_up, netif_pretend_tcp, netif_default, netif_ip6_valid,
  bind_to_netif, accept, reactor_quit, tcp_tmr, set_tcp_timer, exec, netif, listener, listener_ip6,
  tcp_timer, write_buffer, lwip_job, read_buffer, reading, tap, signals, reactor, blog, Globals,
  free_contents,
}

abbrev pub calling : List SetupCall → Globals → Globals
calling cs g = record g { calls = g.calls ++ cs }

unfoldable pub terminate : Globals → Option Globals
terminate g =
    require (not g.quitting) (some (calling (reactor_quit ∷ []) (record g { quitting = true })))

-- What lwIP answers to the set-up: for the netif, and for each of the two listeners.
pub record Listening : Type 0 where
  pub created : Bool
  pub bound : Bool
  pub listens : Bool

pub record LwipStart : Type 0 where
  pub netif_added : Bool
  pub ip4 : Listening
  pub ip6 : Listening

-- The label `fail`
abbrev pub init_failed : Globals → Option Globals
init_failed g = if not g.quitting then terminate g else some g

-- A listener from `tcp_new_ip6` to `tcp_accept`
unfoldable pub listen_ip6 : Listening → Globals → Option Globals
listen_ip6 a g =
    if not a.created
    then init_failed g
    else if not a.bound
    then init_failed (calling (made listener_ip6 ∷ bind_to_netif ∷ freed listener_ip6 ∷ []) g)
    else if not a.listens
    then init_failed (calling (made listener_ip6 ∷ bind_to_netif ∷ freed listener_ip6 ∷ []) g)
    else some (
        calling (made listener_ip6 ∷ bind_to_netif ∷ accept ∷ [])
          (record g { has_listener_ip6 = true }))

-- From `tcp_new` on; `tcp_listen` puts another pcb in the place of the one that it is given.
unfoldable pub listen : LwipStart → Globals → Option Globals
unfolding listen_ip6
listen a g =
    if not a.ip4.created
    then init_failed g
    else if not a.ip4.bound
    then init_failed (calling (made listener ∷ bind_to_netif ∷ freed listener ∷ []) g)
    else if not a.ip4.listens
    then init_failed (calling (made listener ∷ bind_to_netif ∷ freed listener ∷ []) g)
    else let g' =
        calling (made listener ∷ bind_to_netif ∷ accept ∷ []) (record g { has_listener = true }) in
      if g.has_ip6addr then listen_ip6 a.ip6 g' else some g'

-- The netif is set up, and the IPv6 address if there is one.
abbrev pub netif_set_up : Globals → Globals
netif_set_up g =
    calling
      (lwip_init
        ∷ made netif
        ∷ netif_up
        ∷ netif_pretend_tcp
        ∷ netif_default
        ∷ (if g.has_ip6addr then netif_ip6_valid ∷ [] else []))
      (record g { have_netif = true })

unfoldable pub lwip_init_job_hadler : LwipStart → Globals → Option Globals
unfolding listen terminate
lwip_init_job_hadler a g =
    require
      (not g.quitting
        && (is_ipv4 g.processed.netif_ipaddr
            && (is_ipv4 g.processed.netif_netmask
                && (not g.have_netif && (not g.has_listener && not g.has_listener_ip6)))))
      (if not a.netif_added
        then init_failed (calling (lwip_init ∷ []) g)
        else listen a (netif_set_up g))

-- The other events. Packets and clients leave these variables alone.
pub data LoopEvent : Type 0 where
  signal device_error timer : LoopEvent

-- `signal_handler`, `device_error_handler` and `tcp_timer_handler`
unfoldable pub handle : LoopEvent → Globals → Option Globals
unfolding terminate
handle signal g = require (not g.quitting) (terminate g)
handle device_error g = require (not g.quitting) (terminate g)
handle timer g = require (not g.quitting) (some (calling (set_tcp_timer ∷ tcp_tmr ∷ []) g))

-- The events until the loop is quit.
unfoldable pub handle_all : List LoopEvent → Globals → Option Globals
handle_all [] g = some g
handle_all (e ∷ es) g =
    let more : Option Globals = (do g' ← handle e g; handle_all es g') in
    if g.quitting then some g else more

-- `BReactor_Exec`: the job that starts lwIP is pending, and comes first.
unfoldable pub event_loop : LwipStart → List LoopEvent → Globals → Option Globals
unfolding handle_all
event_loop a es g = lwip_init_job_hadler a (calling (exec ∷ []) g) >>= handle_all es

-- The clients that are left, the first one first; `client_dealloc` takes each out of the list.
unfoldable pub free_clients : ℕ → List Client → Option (List Client)
free_clients num [] = some []
free_clients num (c ∷ cs) = do
  d ← client_murder (record c { num_clients = num })
  ds ← free_clients d.num_clients cs
  some (d ∷ ds)

-- What is released behind the loop, but for the clients.
unfoldable pub teardown : Globals → List SetupCall
teardown g =
    (if g.has_listener_ip6 then freed listener_ip6 ∷ [] else [])
    ++ ((if g.has_listener then freed listener ∷ [] else [])
        ++ ((if g.have_netif then freed netif ∷ [] else [])
            ++ (freed tcp_timer
                  ∷ freed write_buffer
                  ∷ freed lwip_job
                  ∷ freed read_buffer
                  ∷ freed reading
                  ∷ freed tap
                  ∷ freed signals
                  ∷ freed reactor
                  ∷ free_contents g.processed.password_file_contents
                ++ (freed blog ∷ []))))

-- `num` and `clients` are `num_clients` and `tcp_clients` when the loop has ended. The result has the
-- calls from the start of the program on, and the clients as they were freed.
unfoldable pub tun2socks_run :
    LwipStart → List LoopEvent → ℕ → List Client → Globals → Option (List SetupCall × List Client)
unfolding event_loop free_clients teardown
tun2socks_run a es num clients g = do
  g' ← event_loop a es g
  freed_clients ← free_clients num clients
  some (g'.calls ++ teardown g', freed_clients)
