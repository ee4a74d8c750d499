-- ===== src/Proxy/Opening.antt =====
-- How `main` of the proxy reaches its loop, and what holds there.
use matador.Base.{
  ℕ, true, false, ◌<◌, ◌≡◌, refl, ◌∙◌, arith, Option, none, some, List, [], ◌∷◌, ◌++◌, length,
  replicate, ◌==◌, Runs, Runs-some, Runs-bind, Runs-if,
}
use matador.Base.Int.{ℤ}
use matador.Memory.{Bytes}
use matador.Memory.Laws.{write_at-Runs, length-recv_into}
use matador.Socket.{SockaddrIn}
use matador.CText.{text, atoi}
use matador.Stun.Retries.{stun_request-Runs}
use matador.Stun.Request.{stun_count, stun_port}
use matador.Ports.{is_minus_one, random_port}
use matador.Ports.Draws.{open_port-Runs}
use matador.Proxy.{Config, State, buflen}
use matador.Proxy.ArpFrame.{arp_reply, gratuitous_arp-arp_reply, length-arp_reply}
use matador.Proxy.Forwarding.{KeepsReply}
use matador.Proxy.Safety.{IsSized}
use matador.Proxy.Setup.{
  World, Sent, Start, usage, exit_failure, return_minus_one, entered, has_sockets, fd_sets,
  bind_code, open_packet, hear_first, meet_peer, ask_stun, announce_self, with_addresses,
  find_interface, start,
}

-- The sizes of the buffers of `main`, and of the hardware address that `ioctl` gives; the three sockets
-- can be opened.
pub record IsWorld (w : World) : Type 0 where
  pub sockets_open : has_sockets w ≡ true
  pub buffer_size : length w.buffer_junk ≡ buflen
  pub request_size : length w.request_junk ≡ 1024
  pub reply_size : length w.reply_junk ≡ 1024
  pub id_size : length w.random_id ≡ 16
  pub mac_size : (iface mac : Bytes) → w.hwaddr iface ≡ some mac → length mac ≡ 6

-- What holds when the loop is entered.
pub record IsReady (cfg : Config) (s : State) : Type 0 where
  pub sized : IsSized s
  pub keeps_reply : KeepsReply cfg s
  pub empty : (fd : ℕ) → s.rset fd ≡ false

abbrev pub StartsReady : Start → Type 0
StartsReady (entered cfg s sent) = IsReady cfg s
StartsReady _ = Unit

hear_first-Ready :
    (cfg : Config) (arp buffer : Bytes) (sent : Sent) (first : Option (SockaddrIn × Bytes))
    → length buffer ≡ buflen
    → arp ≡ arp_reply (replicate 6 0xff) cfg.if_raw_mac cfg.if_raw_addr
    → length cfg.if_raw_mac ≡ 6
    → StartsReady (hear_first cfg arp buffer sent first)
unfolding hear_first
hear_first-Ready cfg arp buffer sent none size e mac = tt
hear_first-Ready cfg arp buffer sent (some (from, datagram)) size e mac = record {
  sized = record {
    buffer_size = length-recv_into buffer buflen datagram (omega arith) ∙ size;
    arp_size = rw e (length-arp_reply (replicate 6 0xff) cfg.if_raw_mac cfg.if_raw_addr refl mac);
    ports_size = refl;
  };
  keeps_reply = record { asker = replicate 6 0xff; asker_size = refl; arp_is = e };
  empty = λ fd. refl;
}

fd_sets-Runs : (s : Start) → StartsReady s → Runs StartsReady (fd_sets true s)
fd_sets-Runs usage h = Runs-some _ h
fd_sets-Runs (exit_failure sent) h = Runs-some _ h
fd_sets-Runs (return_minus_one sent) h = Runs-some _ h
fd_sets-Runs (entered cfg s sent) h = Runs-some _ h

meet_peer-Runs :
    (w : World) (cfg : Config) (arp : Bytes) (sent : Sent) (peer : Option ℕ)
    → IsWorld w
    → arp ≡ arp_reply (replicate 6 0xff) cfg.if_raw_mac cfg.if_raw_addr
    → length cfg.if_raw_mac ≡ 6
    → Runs StartsReady (meet_peer w cfg arp sent peer)
unfolding meet_peer
meet_peer-Runs w cfg arp sent none is e mac = Runs-some _ tt
meet_peer-Runs w cfg arp sent (some addr) is e mac =
    Runs-bind _
      (write_at-Runs w.buffer_junk 0 (open_packet ++ 0 ∷ []) (omega (arith, is.buffer_size)))
      λ buffer _ same.
        rw is.sockets_open
          (fd_sets-Runs _ (hear_first-Ready cfg arp buffer _ w.first (same ∙ is.buffer_size) e mac))

ask_stun-Runs :
    (w : World) (cfg : Config) (rhost arp : Bytes) (sent : Sent) (server : Option ℕ)
    → IsWorld w
    → arp ≡ arp_reply (replicate 6 0xff) cfg.if_raw_mac cfg.if_raw_addr
    → length cfg.if_raw_mac ≡ 6
    → Runs StartsReady (ask_stun w cfg rhost arp sent server)
unfolding ask_stun
ask_stun-Runs w cfg rhost arp sent none is e mac = Runs-some _ tt
ask_stun-Runs w cfg rhost arp sent (some server) is e mac =
    Runs-bind _
      (stun_request-Runs stun_count (record { sin_port = stun_port; s_addr = server }) w.random_id
        w.request_junk w.reply_junk w.stun is.id_size is.request_size is.reply_size w.mapped_junk)
      λ r _ _. meet_peer-Runs w cfg arp _ (w.gethostbyname rhost) is e mac

with_addresses-Runs :
    (w : World) (port rport : ℤ) (iface rhost : Bytes) (hwaddr : Option Bytes) (ifaddr : Option ℕ)
    → IsWorld w
    → w.hwaddr iface ≡ hwaddr
    → Runs StartsReady (with_addresses w port rport rhost hwaddr ifaddr)
unfolding with_addresses announce_self
with_addresses-Runs w port rport iface rhost (some mac) (some addr) is e =
    let size = is.mac_size iface mac e in
    rw (gratuitous_arp-arp_reply mac addr size)
      (ask_stun-Runs w _ rhost _ _ (w.gethostbyname (text "stun.schlund.de")) is refl size)
with_addresses-Runs w port rport iface rhost none ifaddr is e = Runs-some _ tt
with_addresses-Runs w port rport iface rhost (some mac) none is e = Runs-some _ tt

-- With any arguments and any answers of the kernel, `main` reaches its loop or leaves by one of its
-- exits, provided that its three sockets can be opened and one of the ports that are drawn can be
-- bound. In the loop the buffers have their sizes, the kept frame is an ARP reply for the proxy's
-- address, and no descriptor is in the set.
pub start-Runs :
    (k fuel : ℕ) (w : World) (argv : List Bytes)
    → IsWorld w
    → k < fuel
    → is_minus_one (bind_code w (random_port (w.rand k))) ≡ false
    → Runs StartsReady (start fuel w argv)
unfolding start find_interface
start-Runs k fuel w (name ∷ iface ∷ listen_port ∷ rhost ∷ rport ∷ []) is h free =
    Runs-bind _ (open_port-Runs k fuel (atoi listen_port) w.rand (bind_code w) h free) λ opened _ _.
      Runs-if (is_minus_one opened.1) _ _ (λ _. Runs-some _ tt)
        λ _.
          Runs-if (w.ifindex iface == 0) _ _ (λ _. Runs-some _ tt)
            λ _.
              with_addresses-Runs w opened.0 (atoi rport) iface rhost (w.hwaddr iface)
                (w.ifaddr iface) is refl
start-Runs k fuel w [] is h free = Runs-some _ tt
start-Runs k fuel w _ is h free = Runs-some _ tt
