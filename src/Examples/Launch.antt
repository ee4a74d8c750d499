-- ===== src/Examples/Launch.antt =====
-- Concrete runs of the end of `main` of measurement_proxy/tunnel.c, and of its first and last
-- datagram at the proxy.
use matador.Base.{◌≡◌, refl, arith, false, none, some, [], ◌∷◌, Runs, Ensures}
use matador.Base.Int.{pos, negsuc}
use matador.CText.{text}
use matador.Proxy.Setup.{nothing, hear_first}
use matador.Proxy.Udp.{handle_udp}
use matador.Proxy.Shutdown.{exit}
use matador.Tunnel.Launch.{Route, System, ssh_args, launch}
use matador.Tunnel.Launched.{EndsWell, has_args, launch-Runs}
use matador.Tunnel.Farewell.{InLoop, hear_first-exit}
use matador.Examples.Network.{cfg, zeros, sockets}

abbrev route : Route
route = record {
  remote_host = text "1.2.3.4";
  remote_port = pos 4500;
  tunip_string = text "10.0.0.2";
  mapped_port = 4600;
  tundevice = none;
  iface_out = text "eth0";
  socksport = pos 8880;
  suser = text "me";
  shost = text "host";
  sport = pos 1000000000;
  skeyfile = none;
  resolv_filename = text "/tmp/resolv";
}

abbrev system : System
system = record {
  host_addr = some 16909060;
  init_failed = false;
  devname = text "tun0";
  sshpid = pos 100;
  child_pid = negsuc 0;
}

launch-Runs_example :
    Runs (EndsWell false (ssh_args route ∷ [])) (launch route system)
    × (has_args (ssh_args route) ≡ false)
launch-Runs_example = launch-Runs route system (omega arith) (omega arith) (omega arith)

hear_first-exit_example :
    InLoop
      (λ s. Ensures (λ r. r.0 ≡ false) (handle_udp (sockets (pos 6)) s (some exit)))
      (hear_first cfg [] zeros nothing
        (some (record { sin_port = 7000; s_addr = 167772161 }, text "OPEN!")))
hear_first-exit_example =
    hear_first-exit cfg [] zeros nothing (record { sin_port = 7000; s_addr = 167772161 })
      (text "OPEN!") 33 (sockets (pos 6)) (omega arith) refl
