-- ===== src/Proxy/Raw.antt =====
-- measurement_proxy/proxy.c: a frame from the packet socket. Offsets count from the frame's start:
-- the IP header stands at 14, and what follows it is read at 34 whatever its length field says.
use matador.Base.{
  ℕ, ◌+◌, ◌-◌, ◌%◌, ◌^◌, Bool, true, false, ◌&&◌, Option, none, some, List, [], ◌∷◌, length, take,
  get_elem?, ◌==◌, if◌then◌else◌, ◌>>=◌,
}
use matador.Base.Int.{ℤ, pos, negsuc}
use matador.Memory.{Bytes, be16_at, be32_at, recv_into}
use matador.Proxy.{
  Config, State, Effect, send_tunnel, buflen, sizeof_ethhdr, eth_p_ip, eth_p_arp, ipproto_tcp,
  ipproto_udp, slice,
}
use matador.Proxy.Arp.{handle_arp}

-- A 16-bit field against an `int`.
abbrev pub eq_int : ℕ → ℤ → Bool
eq_int n (pos m) = n == m
eq_int n (negsuc m) = false

-- `skip`: TCP always, and the UDP packets of the tunnel itself
unfoldable pub skip_packet : Config → State → ℕ → Option Bool
skip_packet cfg s protocol =
    if protocol == ipproto_tcp
    then some true
    else if protocol == ipproto_udp
    then (do
      saddr ← be32_at s.buffer 26
      source ← be16_at s.buffer 34
      dest ← be16_at s.buffer 36
      some (saddr == s.udp_client_addr.s_addr && (eq_int source cfg.rport && eq_int dest cfg.port)))
    else some false

-- `recsize - sizeof(struct ethhdr)` in `size_t`
unfoldable pub payload_size : ℕ → ℕ
payload_size recsize = (recsize + 2 ^ 64 - sizeof_ethhdr) % 2 ^ 64

-- The branch for a frame of type IP: a packet to our address goes through the tunnel as it is.
unfoldable pub handle_ip : Config → State → ℕ → Option (State × List Effect)
handle_ip cfg s recsize = do
  daddr ← be32_at s.buffer 30
  if daddr == cfg.if_raw_addr
      then (do
        protocol ← get_elem? s.buffer 23
        skip ← skip_packet cfg s protocol
        if skip then some (s, []) else (do
          packet ← slice s.buffer sizeof_ethhdr (payload_size recsize)
          some (s, send_tunnel s.udp_client_addr packet ∷ [])))
      else some (s, [])

-- The dispatch on the frame's type; `s` holds the frame in its buffer.
unfoldable pub handle_frame : Config → State → ℕ → Option (State × List Effect)
handle_frame cfg s recsize = do
  proto ← be16_at s.buffer 12
  if proto == eth_p_arp
      then handle_arp cfg s
      else if proto == eth_p_ip
      then handle_ip cfg s recsize
      else some (s, [])

-- `recvfrom` on the packet socket, `none` where it fails; nothing is done unless bytes were read.
unfoldable pub handle_raw : Config → State → Option Bytes → Option (State × List Effect)
handle_raw cfg s none = some (s, [])
handle_raw cfg s (some frame) =
    let recsize = length (take buflen frame) in
    let s' = record s { buffer = recv_into s.buffer buflen frame } in
    if recsize == 0 then some (s', []) else handle_frame cfg s' recsize
