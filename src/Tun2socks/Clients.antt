-- ===== src/Tun2socks/Clients.antt =====
-- tun2socks.c: all clients, `LinkedList1 tcp_clients` and `num_clients`.
use matador.Base.{ℕ, zero, suc, Option, none, some, List, [], ◌∷◌, ◌++◌, if◌then◌else◌, ◌>>=◌}
use matador.Tun2socks.{Client, Lwip}
use matador.Tun2socks.Events.{Event, step}

-- The counter that a client of the list holds is an old one; the shared one is given to it with an event.
pub record Clients : Type 0 where
  pub num_clients : ℕ
  pub tcp_clients : List Client

-- `LinkedList1_Append` for a client that `listener_accept_func` has made.
unfoldable pub list_append : Clients → Option Client → Clients
list_append s none = s
list_append s (some c) = record {
  num_clients = c.num_clients;
  tcp_clients = s.tcp_clients ++ c ∷ [];
}

-- `LinkedList1_Remove` if `client_dealloc` has freed the client.
abbrev pub put_back : Client → List Client → Clients
put_back d cs = record { num_clients = d.num_clients; tcp_clients = if d.live then d ∷ cs else cs }

abbrev pub behind_client : Client → Clients → Clients
behind_client c s = record s { tcp_clients = c ∷ s.tcp_clients }

-- An event for the client at place `i` of the list.
unfoldable pub on_client : Lwip → Event → ℕ → ℕ → List Client → Option Clients
on_client k e i num [] = none
on_client k e zero num (c ∷ cs) = do
  d ← step k e (record c { num_clients = num })
  some (put_back d cs)
on_client k e (suc i) num (c ∷ cs) = do s ← on_client k e i num cs; some (behind_client c s)
