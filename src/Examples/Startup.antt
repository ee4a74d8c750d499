-- ===== src/Examples/Startup.antt =====
-- Concrete runs of measurement_proxy/bind_public.c of the start of
-- measurement_proxy/proxy.c, and of the local side of measurement_proxy/tunnel.c.
use matador.Base.{
  ℕ, zero, suc, ◌≡◌, ◌≤◌, ◌<◌, refl, sym, ap, arith, ◌==◌, none, some, List, [], ◌∷◌, length,
  replicate, length-replicate, Runs, if◌then◌else◌, true, false,
}
use mathlib.Core.Option.{some-injective}
use matador.Base.Int.{ℤ, pos, minus_one}
use matador.Memory.{Bytes}
use matador.Socket.{SockaddrIn, zero_addr}
use matador.CText.{text}
use matador.BindPublic.{
  Sockaddr, inet, Resolver, Lookup, Family, af_inet, af_inet6, af_other, failed, found, sa_family,
  Bound, bind_public, print_ip4,
}
use matador.BindPublic.Rebind.{HonoursFamily, target, bind_public-target}
use matador.Ports.{is_minus_one, random_port, open_port}
use matador.Ports.Draws.{open_port-random}
use matador.Proxy.Setup.{World, bind_code, start}
use matador.Tunnel.Options.{defaults}
use matador.Tunnel.Local.{Network, open_local}
use matador.Tunnel.Reachable.{IsNetwork, OpensFor, open_local-Runs}
use matador.Proxy.Opening.{IsWorld, StartsReady, start-Runs}

-- A node with one public address of the IPv4 family.
abbrev node : Resolver
node af_inet = found (inet (record { sin_port = 0; s_addr = 3405803777 }))
node af_inet6 = failed
node (af_other f) = failed

abbrev family_of : Lookup → Family
family_of failed = af_inet
family_of (found a) = sa_family a

node-honours : (f : Family) (a : Sockaddr) → node f ≡ found a → sa_family a ≡ f
node-honours af_inet a e = ap family_of (sym e)
node-honours af_inet6 a e = absurd (ground arith)
node-honours (af_other f) a e = absurd (ground arith)

node-HonoursFamily : HonoursFamily node
node-HonoursFamily = record { honours = node-honours }

bind_public-target_example :
    Runs
      (λ (b : Bound).
        (b.rc ≡ pos 0)
        × (b.binds ≡ target node (inet (record { sin_port = 6001; s_addr = 0 })) ∷ []))
      (bind_public node (λ a. pos 0) (inet (record { sin_port = 6001; s_addr = 0 })))
bind_public-target_example =
    bind_public-target node (λ a. pos 0) (inet (record { sin_port = 6001; s_addr = 0 }))
      node-HonoursFamily

-- Draw 0 gives a port in use, draw 1 a free one.
abbrev draws : ℕ → ℕ
draws zero = 5
draws (suc n) = 6

abbrev bind_free : ℕ → ℤ
bind_free port = if port == 6006 then minus_one else pos 0

taken_first : (j : ℕ) → j < 1 → is_minus_one (bind_free (random_port (draws j))) ≡ true
unfolding random_port
taken_first zero h = refl
taken_first (suc j) h = absurd (omega arith)

free_second : is_minus_one (bind_free (random_port (draws 1))) ≡ false
unfolding random_port
free_second = refl

open_port-random_example :
    (open_port 10 (pos 0) draws bind_free ≡ some (pos (random_port 6), bind_free (random_port 6)))
    × (6001 ≤ random_port 6)
    × (random_port 6 ≤ 28000)
open_port-random_example =
    open_port-random 1 10 draws bind_free (omega arith) taken_first free_second

abbrev world : World
world = record {
  sock_udp = pos 3;
  sock_raw_recv = pos 4;
  sock_raw_send = pos 5;
  rand = draws;
  resolve = node;
  bind = λ a. pos 0;
  ifindex = λ name. 2;
  hwaddr = λ name. some (replicate 6 2);
  ifaddr = λ name. some 3405803777;
  gethostbyname = λ name. some 134744072;
  random_id = replicate 16 1;
  request_junk = replicate 1024 0;
  reply_junk = replicate 1024 0;
  mapped_junk = zero_addr;
  stun = λ i. record { sent = pos 20; selected = pos 0; received = none };
  buffer_junk = replicate 65535 0;
  first = some (zero_addr, text "OPEN!");
}

world-IsWorld : IsWorld world
world-IsWorld = record {
  sockets_open = refl;
  buffer_size = length-replicate {A = ℕ} 65535 0;
  request_size = length-replicate {A = ℕ} 1024 0;
  reply_size = length-replicate {A = ℕ} 1024 0;
  id_size = refl;
  mac_size = λ name mac e. ap length (sym (some-injective (replicate 6 2) mac e));
}

free_draw : is_minus_one (bind_code world (random_port 5)) ≡ false
unfolding random_port bind_code bind_public matador.BindPublic.is_addr_any
    matador.BindPublic.readdress
free_draw = refl

abbrev arguments : List Bytes
arguments = text "proxy" ∷ text "eth0" ∷ text "0" ∷ text "example.org" ∷ text "7000" ∷ []

start-Runs_example : Runs StartsReady (start 10 world arguments)
start-Runs_example = start-Runs 0 10 world arguments world-IsWorld (omega arith) free_draw

abbrev network : Network
network = record {
  rand = draws;
  bind = bind_free;
  gethostbyname = λ name. some 134744072;
  stun = λ i. record { sent = pos 20; selected = pos 0; received = none };
  random_id = replicate 16 1;
  request_junk = replicate 1024 0;
  reply_junk = replicate 1024 0;
  mapped_junk = zero_addr;
}

network-IsNetwork : IsNetwork network
network-IsNetwork = record {
  id_size = refl;
  request_size = length-replicate {A = ℕ} 1024 0;
  reply_size = length-replicate {A = ℕ} 1024 0;
}

open_local-Runs_example :
    Runs (OpensFor network (defaults true)) (open_local 10 network (defaults true))
open_local-Runs_example =
    open_local-Runs 1 10 network (defaults true) network-IsNetwork (omega arith) free_second

abbrev endpoint : SockaddrIn
endpoint = record { sin_port = 4660; s_addr = 134744072 }
