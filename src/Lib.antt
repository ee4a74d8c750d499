-- ===== src/Lib.antt =====
-- measurement_proxy of matador: a tunnel that carries a device's traffic to a remote host.
--
-- There are two programs, `tunnel` and `proxy`. `tunnel` (measurement_proxy/tunnel.c) reads its
-- options, logs in to a remote host over SSH, uploads the proxy, starts it, and reads from its
-- output where it can be reached; from then on it sends what its TUN device delivers, TCP excepted,
-- as datagrams to the proxy, and a child process writes what comes back to the device. `proxy`
-- (measurement_proxy/proxy.c) sends these packets out through a raw socket, and sends the packets
-- that reach its interface back. Both learn their mapped address by STUN
-- (measurement_proxy/ministun.c), and the proxy binds by way of measurement_proxy/bind_public.c.
-- TCP ends in tun2socks.c, which is linked into `tunnel`: it ties each connection of the device to
-- one through a SOCKS server.
--
-- How the code is modelled. Memory is a list of bytes, and a read or a write outside of a buffer
-- is `none`, so that "does not fault" is a theorem (`Runs`), and "if it does not fault" is
-- `Ensures`. A multi-byte field is the number that `ntohs` or `ntohl` gives. Calls of the
-- kernel, of libssh and of the resolver are arguments of the definitions, and what the program
-- hands to them is part of the result. Output of DEBUG_PRINT is left out, as with NDEBUG in
-- measurement_proxy/Makefile, and so are messages on stderr; `hexDump`, which does nothing else, is
-- modelled without NDEBUG.
--
-- The files:
--   Base, Base/*           numbers, lists, tests, `Option` with `Runs` and `Ensures`
--   Memory, Socket, CText  buffers, addresses, and the C library's text functions
--   Stun, Stun/*           ministun.c and ministun.h: `stun_handle_packet` in Stun, `stun_request`
--                          in Stun/Request, the names in Stun/Names; an independent description
--                          of a message in Stun/Message; proofs in Bounds, Attributes, Parse, Rounds,
--                          Retries
--   BindPublic             bind_public.c, with its proofs in BindPublic/Rebind
--   Ports                  the choice of the local port, the same loop in proxy.c and tunnel.c
--   Proxy, Proxy/*         proxy.c: the start in Setup, ARP in Arp, frames in Raw, datagrams in
--                          Udp, the `select` loop in Loop; descriptions in Frames and ArpFrame,
--                          proofs in the other files, named for what they prove
--   Tunnel, Tunnel/*       tunnel.c: Options, Local (the socket of the tunnel and its STUN request),
--                          Auth, Session, Arch, Upload, Resolv, Announce, Launch
--                          (what `main` does behind the SSH session, the processes and the commands
--                          for the TUN device included), Packets; proofs in Targets, Login, Calls,
--                          Overflow, Transfer, Handshake, Reachable, Launched, EndToEnd, in
--                          Invited, which joins the command of tunnel.c with the start of proxy.c,
--                          and in Farewell, which joins the first and last datagram of tunnel.c
--                          with the loop of proxy.c
--   Tun2socks, Tun2socks/* measurement_proxy/tun2socks/tun2socks/tun2socks.c. The program: the
--                          command line in Arguments, `process_arguments` in Setup,
--                          `tun2socks_init` in Begin, the handlers of the event loop and
--                          `tun2socks_run` in Loop, `tun2socks_main` in Program; proofs in
--                          CommandLine, Halves, Exit and what Exit uses (Left, Released, Kept).
--                          The TUN device: Device, with proofs in Input and Output. The TCP
--                          clients: `listener_accept_func` in Accept, the list of all clients and
--                          `num_clients` in Clients, with proofs in Census, the `tcp_client` in
--                          Tun2socks, `client_free_*` and the like in Closing, the two directions
--                          of data in Relay, the events in Events; what holds of a client in
--                          Sound, the proofs in Accepts, History, Flow, Backflow, Flushed,
--                          Drained and what these use
--   Tools, Tools/*         tools.c, with DEBUG_PRINT on; the printed lines are described in Lines, and
--                          Rows has the proof
--   Examples, Examples/*   concrete runs
--
-- Fuel. The attribute loop of `stun_handle_packet` gets one more than the bytes that are left,
-- and each round takes four at least. The upload loop gets one more than the size of the file,
-- and each round reads a byte. The loop that draws a port gets its fuel as an argument, since a
-- kernel that refuses every port keeps it running; it is enough to exceed the index of the first
-- draw that can be bound. The functions that close a client of tun2socks.c call each other four
-- deep at most. The loop that queues bytes with lwIP gets one more than the bytes. The retry loop, the
-- `select` loop, the loop over the command line, and the event loop of tun2socks.c are structural, on
-- the number of retries, the list of the kernel's answers, the arguments and the list of events.
--
-- Not modelled: the commented-out code; `print_help`, `print_version` and `client_log`, which only
-- print; the rest of measurement_proxy/tun2socks, which are the libraries of BadVPN and lwIP; the
-- scripts of the other directories, which are in other languages.
pub mod Base
pub mod Memory
pub mod Socket
pub mod Stun
pub mod CText
pub mod BindPublic
pub mod Ports
pub mod Proxy
pub mod Tunnel
pub mod Examples
pub mod Tools
pub mod Tun2socks
