-- ===== src/Examples/Crowd.antt =====
-- Concrete runs of tun2socks.c with several clients: two connections are accepted, one is lost.
use matador.Base.{refl, true, false, none, [], ◌∷◌, Runs}
use matador.Tun2socks.{Lwip, err_ok}
use matador.Tun2socks.Events.{accepted, err, step}
use matador.Tun2socks.Closing.{client_err_func, client_handle_freed_client, client_dealloc}
use matador.Tun2socks.Clients.{Clients, list_append, on_client}
use matador.Tun2socks.Census.{ReachesAll, begun, accepts, goes_on, init_then_run-released}
use matador.Tun2socks.Arguments.{initial}
use matador.Tun2socks.Setup.{ipv4, auth_none}
use matador.Tun2socks.Begin.{tun2socks_init}
use matador.Tun2socks.Exit.{EndsReleased}
use matador.Tun2socks.Halves.{init_then_run}
use matador.Examples.Program.{readers, begin, lwip_start, events, name, address, mask, server}
use matador.Tun2socks.Accept.{BAddr, Accepting, listener_accept_func, accept_named, accept_socks}

abbrev lwip : Lwip
lwip = record { close_fails = false; sndbuf = λ i. 1460; write = λ i. err_ok; output_fails = false }

abbrev web : Accepting
web = record {
  is_ipv6 = false;
  local_ip = record { ip4 = 16843009; ip6 = [] };
  local_port = 443;
  remote_ip = record { ip4 = 167772162; ip6 = [] };
  remote_port = 40000;
  err_ok = true;
  malloc_ok = true;
  concat_ok = true;
  socks_ok = true;
  printed = [];
  killed = false;
  junk = none;
}

abbrev proxy : BAddr
proxy = (ipv4 2130706433, 8880)

abbrev two : Clients
two = record { num_clients = 2; tcp_clients = accepted 0 none ∷ accepted 1 none ∷ [] }

abbrev one_left : Clients
one_left = record { num_clients = 1; tcp_clients = accepted 1 none ∷ [] }

two-ReachesAll : ReachesAll two
unfolding accept_named accept_socks listener_accept_func list_append accepted
two-ReachesAll =
    accepts web proxy none false (auth_none ∷ [])
      (accepts web proxy none false (auth_none ∷ []) begun refl refl) refl refl

one_left-ReachesAll : ReachesAll one_left
unfolding accepted on_client step client_err_func client_handle_freed_client client_dealloc
one_left-ReachesAll = goes_on lwip err 0 two-ReachesAll refl refl

init_then_run-released_example : Runs (EndsReleased 2) (
    init_then_run lwip_start events 2 two.tcp_clients
      (tun2socks_init readers 3 begin (initial name) none address mask server true))
init_then_run-released_example =
    init_then_run-released readers 3 begin (initial name) none address mask server true lwip_start
      events two two-ReachesAll
