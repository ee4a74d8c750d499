-- ===== src/Proxy/Udp.antt =====
-- measurement_proxy/proxy.c: a datagram from the tunnel's UDP socket.
use matador.Base.{
  ℕ, Bool, true, false, ◌&&◌, Option, none, some, List, [], ◌∷◌, ◌++◌, length, take, get_elem?,
  set?, ◌==◌, if◌then◌else◌, ◌>>=◌,
}
use matador.Base.Int.{ℤ, pos, negsuc}
use matador.Memory.{Bytes, be16_at, be32_at, recv_into}
use matador.CText.{text, is_prefix}
use matador.BindPublic.{Sockaddr, inet, Resolver, bind_public}
use matador.Proxy.{State, Effect, send_packet, open_fake, buflen, ipproto_tcp, ipproto_udp, slice}

-- What the kernel answers to the calls for one UDP packet: the result of `socket`, the resolver of
-- `bind_public`, and the result of `bind`.
pub record Sockets : Type 0 where
  pub socket : ℤ
  pub resolve : Resolver
  pub bind : Sockaddr → ℤ

-- `fd_udp_port[fd] = port`, outside of the array for a negative or a large `fd`
unfoldable pub set_fd_udp_port : List ℕ → ℤ → ℕ → Option (List ℕ)
set_fd_udp_port ports (pos fd) port = set? ports fd port
set_fd_udp_port ports (negsuc n) port = none

abbrev pub fd_of : ℤ → ℕ
fd_of (pos fd) = fd
fd_of (negsuc n) = 0

-- The packet in the buffer goes out through the raw socket.
unfoldable pub send_raw : State → ℕ → Option (State × List Effect)
send_raw s recsize = do
  daddr ← be32_at s.buffer 16
  packet ← slice s.buffer 0 recsize
  some (s, send_packet daddr packet ∷ [])

abbrev pub behind : List Effect → State × List Effect → State × List Effect
behind before r = (r.0, before ++ r.1)

-- The branch for UDP: a socket on the packet's source port keeps the kernel from answering with
-- "port unreachable".
unfoldable pub open_and_send : Sockets → State → ℕ → Option (State × List Effect)
open_and_send k s recsize = do
  source ← be16_at s.buffer 20
  bound ← bind_public k.resolve k.bind (inet (record { sin_port = source; s_addr = 0 }))
  dest ← be16_at s.buffer 22
  ports ← set_fd_udp_port s.fd_udp_port k.socket dest
  r ← send_raw (record s { fd_udp_port = ports; maxfd = k.socket }) recsize
  some (behind (open_fake (fd_of k.socket) bound.binds ∷ []) r)

unfoldable pub handle_packet : Sockets → State → ℕ → Option (State × List Effect)
handle_packet k s recsize = do
  protocol ← get_elem? s.buffer 9
  if protocol == ipproto_tcp
      then some (s, [])
      else if protocol == ipproto_udp
      then open_and_send k s recsize
      else send_raw s recsize

-- `strcmp(buffer, literal) == 0`: the literal's NUL is compared too.
unfoldable pub holds_text : Bytes → Bytes → Bool
unfolding is_prefix
holds_text buffer literal = is_prefix (literal ++ 0 ∷ []) buffer

-- The result's flag is `eof_socket`. A failed read or an empty datagram sets it, too.
unfoldable pub handle_udp : Sockets → State → Option Bytes → Option (Bool × State × List Effect)
handle_udp k s none = some (true, s, [])
handle_udp k s (some datagram) =
    let recsize = length (take buflen datagram) in
    let s' = record s { buffer = recv_into s.buffer buflen datagram } in
    if recsize == 4 && holds_text s'.buffer (text "EXIT")
    then some (true, s', [])
    else if recsize == 0
    then some (true, s', [])
    else (do r ← handle_packet k s' recsize; some (false, r.0, r.1))
