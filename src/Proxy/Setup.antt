-- ===== src/Proxy/Setup.antt =====
-- measurement_proxy/proxy.c: `main` up to its loop. What the kernel and the resolver answer is a
-- `World`; the result says how `main` went on, with what it printed and sent before. `bind_public`
-- prints a line of its own, which is part of its result and not repeated here.
use matador.Base.{
  ℕ, Bool, false, not, ◌&&◌, Option, none, some, List, [], ◌∷◌, ◌++◌, replicate, ◌==◌,
  if◌then◌else◌, ◌>>=◌,
}
use matador.Base.Int.{ℤ, pos, negsuc, minus_one, is_neg, to_u16}
use matador.Memory.{Bytes, write_at, recv_into}
use matador.Socket.{SockaddrIn, inaddr_any}
use matador.CText.{text, dec, atoi, inet_ntoa}
use matador.Stun.Request.{Round, Requested, stun_count, stun_port, stun_request}
use matador.BindPublic.{Sockaddr, inet, Resolver, bind_public, is_zero}
use matador.Ports.{is_minus_one, open_port}
use matador.Proxy.{Config, State, buflen, fd_setsize}
use matador.Proxy.Arp.{gratuitous_arp}

-- `junk` names hold what memory had before it was written.
pub record World : Type 0 where
  pub sock_udp : ℤ
  pub sock_raw_recv : ℤ
  pub sock_raw_send : ℤ
  pub rand : ℕ → ℕ
  pub resolve : Resolver
  pub bind : Sockaddr → ℤ
  pub ifindex : Bytes → ℕ
  pub hwaddr : Bytes → Option Bytes
  pub ifaddr : Bytes → Option ℕ
  pub gethostbyname : Bytes → Option ℕ
  pub random_id : Bytes
  pub request_junk : Bytes
  pub reply_junk : Bytes
  pub mapped_junk : SockaddrIn
  pub stun : ℕ → Round
  pub buffer_junk : Bytes
  pub first : Option (SockaddrIn × Bytes)

pub record Sent : Type 0 where
  pub printed : Bytes
  pub frames : List Bytes
  pub opens : List (SockaddrIn × Bytes)

abbrev pub nothing : Sent
nothing = record { printed = []; frames = []; opens = [] }

pub data Start : Type 0 where
  usage : Start
  exit_failure return_minus_one : Sent → Start
  entered : Config → State → Sent → Start

-- `printf("TUNIP=%s \n", …)`
unfoldable pub tunip_line : ℕ → Bytes
tunip_line addr = text "TUNIP=" ++ (inet_ntoa addr ++ text " \n")

-- `printf("CONNECT=%s:", …); printf("%d\n", …)`
unfoldable pub connect_line : SockaddrIn → Bytes
connect_line mapped =
    text "CONNECT=" ++ (inet_ntoa mapped.s_addr ++ (b':' ∷ (dec mapped.sin_port ++ text "\n")))

-- `bind_public` on 0.0.0.0 and a port; a fault, which `getaddrinfo` does not let happen, counts as
-- a failure.
unfoldable pub bind_code : World → ℕ → ℤ
bind_code w port =
    elim (bind_public w.resolve w.bind (inet (record { sin_port = port; s_addr = inaddr_any }))) [
      | none ↦ minus_one
      | some b ↦ b.rc
    ]

-- The line for a mapped address: `!res && (mapped.sin_addr.s_addr != htonl(INADDR_ANY))`
abbrev pub announce_mapped : ℤ → Option SockaddrIn → Bytes
announce_mapped res none = []
announce_mapped res (some mapped) =
    if is_zero res && not (mapped.s_addr == inaddr_any) then connect_line mapped else []

abbrev pub announce : Requested → Bytes
announce r = announce_mapped r.ret r.answer

abbrev pub open_packet : Bytes
open_packet = text "OPEN!"

-- The first datagram: its sender is the peer from then on, and the loop is entered.
unfoldable pub hear_first : Config → Bytes → Bytes → Sent → Option (SockaddrIn × Bytes) → Start
hear_first cfg arp buffer sent none = exit_failure sent
hear_first cfg arp buffer sent (some (from, datagram)) =
    entered cfg
      (record {
        buffer = recv_into buffer buflen datagram;
        arp = arp;
        udp_client_addr = from;
        fd_udp_port = replicate fd_setsize 0;
        maxfd = pos cfg.sock_raw_send;
        rset = λ _. false;
      })
      sent

-- The results of the three calls of `socket`, which are not checked: with a -1 among them the first turn
-- of the loop calls FD_SET with a negative number.
abbrev pub has_sockets : World → Bool
has_sockets w =
    not (is_neg w.sock_udp) && (not (is_neg w.sock_raw_recv) && not (is_neg w.sock_raw_send))

abbrev pub descriptor : ℤ → ℕ
descriptor (pos n) = n
descriptor (negsuc n) = 0

abbrev pub fd_sets : Bool → Start → Option Start
fd_sets ok (entered cfg s sent) = if ok then some (entered cfg s sent) else none
fd_sets ok s = some s

-- From `gethostbyname(rhost)`, whose answer is the last argument, to the loop: the packet that
-- opens the way through a NAT, and the first datagram.
unfoldable pub meet_peer : World → Config → Bytes → Sent → Option ℕ → Option Start
meet_peer w cfg arp sent none = some (return_minus_one sent)
meet_peer w cfg arp sent (some addr) = do
  let peer : SockaddrIn = record { sin_port = to_u16 cfg.rport; s_addr = addr }
  buffer ← write_at w.buffer_junk 0 (open_packet ++ 0 ∷ [])
  fd_sets (has_sockets w)
      (hear_first cfg arp buffer (record sent { opens = (peer, open_packet) ∷ [] }) w.first)

-- The STUN request, behind the lookup of its server.
unfoldable pub ask_stun : World → Config → Bytes → Bytes → Sent → Option ℕ → Option Start
ask_stun w cfg rhost arp sent none = some (return_minus_one sent)
ask_stun w cfg rhost arp sent (some server) = do
  r ←
      stun_request stun_count (record { sin_port = stun_port; s_addr = server }) w.random_id
        w.request_junk w.reply_junk w.stun (some w.mapped_junk)
  meet_peer w cfg arp (record sent { printed = sent.printed ++ announce r }) (w.gethostbyname rhost)

-- From the interface's address to the STUN request.
unfoldable pub announce_self : World → Config → Bytes → Option Start
announce_self w cfg rhost = do
  arp ← gratuitous_arp cfg.if_raw_mac cfg.if_raw_addr
  ask_stun w cfg rhost arp
      (record { printed = tunip_line cfg.if_raw_addr; frames = arp ∷ []; opens = [] })
      (w.gethostbyname (text "stun.schlund.de"))

-- The interface's hardware address and its address, as the two `ioctl` calls give them.
unfoldable pub with_addresses : World → ℤ → ℤ → Bytes → Option Bytes → Option ℕ → Option Start
with_addresses w port rport rhost (some mac) (some addr) =
    announce_self w
      (record {
        sock_udp = descriptor w.sock_udp;
        sock_raw_recv = descriptor w.sock_raw_recv;
        sock_raw_send = descriptor w.sock_raw_send;
        if_raw_mac = mac;
        if_raw_addr = addr;
        port = port;
        rport = rport;
      })
      rhost
with_addresses w port rport rhost _ _ = some (exit_failure nothing)

unfoldable pub find_interface : World → ℤ → ℤ → Bytes → Bytes → Option Start
find_interface w port rport iface rhost =
    if w.ifindex iface == 0
    then some (exit_failure nothing)
    else with_addresses w port rport rhost (w.hwaddr iface) (w.ifaddr iface)

-- `main` with its arguments, the program's name first; `fuel` bounds the draws of a random port.
unfoldable pub start : ℕ → World → List Bytes → Option Start
start fuel w (name ∷ iface ∷ listen_port ∷ rhost ∷ rport ∷ []) = do
  opened ← open_port fuel (atoi listen_port) w.rand (bind_code w)
  if is_minus_one opened.1
      then some (exit_failure nothing)
      else find_interface w opened.0 (atoi rport) iface rhost
start fuel w argv = some usage
