-- ===== src/Examples/Program.antt =====
-- Concrete runs of the program of measurement_proxy/tun2socks/tun2socks/tun2socks.c: a command line, a
-- start, and the end with a client that is left.
use matador.Base.{◌≡◌, refl, true, false, none, some, List, [], ◌∷◌, Runs}
use matador.Base.Int.{pos, minus_one}
use matador.Memory.{Bytes}
use matador.CText.{text}
use matador.Tun2socks.{Client}
use matador.Tun2socks.Events.{accepted}
use matador.Tun2socks.Arguments.{LogNames, initial, parse_arguments}
use matador.Tun2socks.CommandLine.{
  Item, ipaddr, netmask, socks_addr, loglevel, username, password, print_items, apply_items,
  parse_arguments-print_items,
}
use matador.Tun2socks.Setup.{Readers, ipv4, auth_none, auth_password}
use matador.Tun2socks.Begin.{Begin, tun2socks_init}
use matador.Tun2socks.Loop.{LwipStart, Listening, LoopEvent, timer, signal}
use matador.Tun2socks.Program.{tun2socks_main}
use matador.Tun2socks.Halves.{
  init_then_run, main_results, device_item, tun2socks_main-init_then_run,
}
use matador.Tun2socks.Accept.{Accepting, listener_accept_func}
use matador.Tun2socks.Accepts.{AcceptsWell, listener_accept_func-Runs}

abbrev pub name : Bytes
name = text "tun2socks"

abbrev log_names : LogNames
log_names = record { parse_loglevel = λ s. pos 4; get_channel_by_name = λ s. minus_one }

abbrev items : List Item
items =
    ipaddr (text "10.0.0.2")
    ∷ netmask (text "255.255.255.0")
    ∷ loglevel (text "info")
    ∷ socks_addr (text "127.0.0.1:8880")
    ∷ username (text "me")
    ∷ password (text "secret")
    ∷ []

parse_arguments-print_items_example :
    parse_arguments log_names (name ∷ print_items items)
    ≡ some (apply_items log_names (initial name) items)
parse_arguments-print_items_example =
    parse_arguments-print_items log_names name items (tt, (tt, (refl, (tt, (tt, (tt, tt))))))

abbrev pub readers : Readers
readers = record {
  resolve = λ s. some (ipv4 167772162);
  parse_ipv6 = λ s. none;
  parse_addr = λ s. some (ipv4 2130706433, 8880);
  read_file = λ s. none;
}

abbrev pub begin : Begin
begin = record {
  syslog_ok = true;
  network_ok = true;
  reactor_ok = true;
  signals_ok = true;
  tap_ok = true;
  read_buffer_ok = true;
  write_buffer_ok = true;
}

abbrev listening : Listening
listening = record { created = true; bound = true; listens = true }

abbrev pub lwip_start : LwipStart
lwip_start = record { netif_added = true; ip4 = listening; ip6 = listening }

abbrev pub events : List LoopEvent
events = timer ∷ signal ∷ []

abbrev left : List Client
left = accepted 0 none ∷ []

abbrev pub address : Bytes
address = text "10.0.0.2"

abbrev pub mask : Bytes
mask = text "255.255.255.255"

abbrev pub server : Bytes
server = text "127.0.0.1:8880"

tun2socks_main-init_then_run_example :
    tun2socks_main log_names readers 3 begin lwip_start events 1 left (
      name
      ∷ print_items
          (ipaddr address ∷ netmask mask ∷ socks_addr server ∷ device_item (some (text "tun0"))))
    ≡ main_results (
        init_then_run lwip_start events 1 left (
          tun2socks_init readers 3 begin
            (initial name)
            (some (text "tun0"))
            address
            mask
            server
            false))
tun2socks_main-init_then_run_example =
    tun2socks_main-init_then_run log_names readers 3 begin lwip_start events 1 left (initial name)
      name (some (text "tun0")) address mask server

abbrev accepting : Accepting
accepting = record {
  is_ipv6 = false;
  local_ip = record { ip4 = 16843009; ip6 = [] };
  local_port = 443;
  remote_ip = record { ip4 = 167772162; ip6 = [] };
  remote_port = 40000;
  err_ok = true;
  malloc_ok = true;
  concat_ok = true;
  socks_ok = false;
  printed = text "10.0.0.2:40000";
  killed = false;
  junk = none;
}

listener_accept_func-Runs_example : Runs (AcceptsWell accepting 2 true false) (
    listener_accept_func accepting
      (ipv4 2130706433, 8880)
      2
      (some (text "me"))
      true
      (auth_none ∷ auth_password (text "me") (text "secret") ∷ []))
listener_accept_func-Runs_example =
    listener_accept_func-Runs accepting (ipv4 2130706433, 8880) 2 (some (text "me")) true
      (auth_none ∷ auth_password (text "me") (text "secret") ∷ []) refl
