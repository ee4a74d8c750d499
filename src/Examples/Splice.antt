-- ===== src/Examples/Splice.antt =====
-- Concrete runs of a client of measurement_proxy/tun2socks/tun2socks/tun2socks.c: the device sends
-- three bytes before the SOCKS connection is up.
use matador.Base.{◌≡◌, refl, arith, true, false, none, some, [], ◌∷◌, ◌++◌, Runs}
use matador.CText.{text}
use matador.Tun2socks.{
  Client, Lwip, err_ok, socks_send, socks_receive, tcp_recved, tcp_write, tcp_output,
}
use matador.Tun2socks.Events.{accepted, Event, recv, socks_is_up, socks_sent, socks_received, step}
use matador.Tun2socks.Sound.{IsSound}
use matador.Tun2socks.Delivered.{Delivers}
use matador.Tun2socks.Backflow.{Backflow, Backflow-Delivers}
use matador.Tun2socks.Drained.{drain, drain-frees}
use matador.Tun2socks.Flushed.{flush, flush-frees}
use matador.Tun2socks.Offered.{Offers}
use matador.Tun2socks.Conserved.{given, taken}
use matador.Tun2socks.Flow.{Flow, began, went, Flow-prefix}

abbrev lwip : Lwip
lwip = record { close_fails = false; sndbuf = λ i. 1000; write = λ i. err_ok; output_fails = false }

abbrev first : Client
first = record {
  client_closed = false;
  socks_up = false;
  socks_closed = false;
  buf = [];
  recv_buf = none;
  recv_sent = 0;
  recv_waiting = false;
  recv_pending = 0;
  recv_on = true;
  sent_on = false;
  live = true;
  num_clients = 1;
  calls = [];
  sending = [];
}

abbrev second : Client
second = record first { buf = text "GET" }

abbrev third : Client
third = record second {
  socks_up = true;
  sent_on = true;
  calls = socks_send (text "GET") ∷ socks_receive ∷ [];
  sending = text "GET";
}

first_is : accepted 0 none ≡ first
unfolding accepted
first_is = refl

second_is : step lwip (recv (some (text "GET"))) (accepted 0 none) ≡ some second
unfolding step accepted matador.Tun2socks.Relay.client_recv_func
second_is = refl

third_is : step lwip socks_is_up second ≡ some third
unfolding step matador.Tun2socks.Events.socks_event_up matador.Tun2socks.Relay.client_send_to_socks
    matador.Tun2socks.Relay.client_socks_recv_initiate
third_is = refl

Flow-third :
    Flow 0 third
      (([] ++ given (recv (some (text "GET"))) (accepted 0 none)) ++ given socks_is_up second)
      (([] ++ taken (recv (some (text "GET"))) (accepted 0 none)) ++ taken socks_is_up second)
Flow-third =
    went lwip socks_is_up (went lwip (recv (some (text "GET"))) (began none) tt second_is) tt
      third_is

-- The SOCKS client has sent two of the three bytes, and is handed the third.
abbrev fourth : Client
fourth = record third {
  buf = text "T";
  calls = socks_send (text "GET") ∷ socks_receive ∷ tcp_recved 2 ∷ socks_send (text "T") ∷ [];
  sending = text "T";
}

fourth_is : step lwip (socks_sent 2) third ≡ some fourth
unfolding step matador.Tun2socks.Relay.client_socks_send_handler_done
fourth_is = refl

Flow-prefix_example : (text "GET" ≡ text "GE" ++ text "T") × Offers (text "T") (text "T") true
unfolding accepted
Flow-prefix_example =
    Flow-prefix 0 fourth _ _ (went lwip (socks_sent 2) Flow-third (omega arith) fourth_is)

-- The SOCKS server answers before the device has sent anything.
abbrev up_first : Client
up_first = record first { socks_up = true; sent_on = true; calls = socks_receive ∷ [] }

abbrev answered : Client
answered = record up_first {
  recv_sent = 2;
  recv_pending = 2;
  calls = socks_receive ∷ tcp_write (text "OK") ∷ tcp_output ∷ socks_receive ∷ [];
}

up_first_is : step lwip socks_is_up (accepted 0 none) ≡ some up_first
unfolding accepted step matador.Tun2socks.Events.socks_event_up
    matador.Tun2socks.Relay.client_socks_recv_initiate
up_first_is = refl

answered_is : step lwip (socks_received (text "OK")) up_first ≡ some answered
unfolding step matador.Tun2socks.Relay.client_socks_recv_handler_done
    matador.Tun2socks.Relay.client_socks_recv_send_out matador.Tun2socks.Relay.queue_loop
    matador.Tun2socks.Relay.send_out_end matador.Tun2socks.Relay.client_socks_recv_initiate
answered_is = refl

Backflow-Delivers_example : Delivers (([] ++ []) ++ text "OK") answered
Backflow-Delivers_example = Backflow-Delivers 0 answered _ (
    Backflow.went lwip (socks_received (text "OK"))
      (Backflow.went lwip socks_is_up (Backflow.began none) up_first_is) answered_is)

-- The device has closed the connection, with three bytes left.
abbrev half : Client
half = record third { client_closed = true; recv_on = false; sent_on = false }

half-IsSound : IsSound half
half-IsSound = record {
  alive = refl;
  counted = omega arith;
  room = omega arith;
  one_open = refl;
  recv_open = λ _ f. absurd (ground (arith, f));
  sent_open = λ _ f. absurd (ground (arith, f));
  waiting = λ f. absurd (ground (arith, f));
  owes_client = λ f. absurd (ground (arith, f));
  owes_socks = λ _. omega arith;
}

flush-frees_example : Runs (λ d. d.live ≡ false) (flush lwip (1 ∷ 2 ∷ []) half)
flush-frees_example =
    flush-frees lwip (1 ∷ 2 ∷ []) half half-IsSound refl refl (omega arith, (omega arith, tt)) refl

-- The SOCKS server has closed the connection, with three bytes not confirmed.
abbrev owed : Client
owed = record third { socks_closed = true; recv_buf = none; recv_pending = 3; recv_on = false }

owed-IsSound : IsSound owed
owed-IsSound = record {
  alive = refl;
  counted = omega arith;
  room = omega arith;
  one_open = refl;
  recv_open = λ f _. absurd (ground (arith, f));
  sent_open = λ _ _. refl;
  waiting = λ _ _ b f. absurd (ground (arith, f));
  owes_client = λ _. (refl, refl);
  owes_socks = λ f. absurd (ground (arith, f));
}

drain-frees_example : Runs (λ d. d.live ≡ false) (drain lwip (2 ∷ 1 ∷ []) owed)
drain-frees_example =
    drain-frees lwip (2 ∷ 1 ∷ []) owed owed-IsSound refl refl (omega arith, (omega arith, tt)) refl
