-- ===== src/Proxy/Arp.antt =====
-- measurement_proxy/proxy.c: the gratuitous ARP frame, and the answer to an ARP request.
use matador.Base.{ℕ, Option, some, List, [], ◌∷◌, replicate, ◌==◌, if◌then◌else◌, ◌>>=◌, ◌&&◌}
use matador.Memory.{Bytes, be16, be32, be16_at, write_at}
use matador.CText.{streq}
use matador.Proxy.{Config, State, Effect, send_frame, sizeof_arp, eth_p_ip, eth_p_arp, slice}

-- The frame, written field by field over zeros, in the order of the source.
unfoldable pub gratuitous_arp : Bytes → ℕ → Option Bytes
gratuitous_arp mac addr = do
  let arp = replicate sizeof_arp 0
  arp ← write_at arp 14 (be16 1)
  arp ← write_at arp 16 (be16 eth_p_ip)
  arp ← write_at arp 18 (6 ∷ [])
  arp ← write_at arp 19 (4 ∷ [])
  arp ← write_at arp 20 (be16 2)
  arp ← write_at arp 22 mac
  arp ← write_at arp 28 (be32 addr)
  arp ← write_at arp 32 mac
  arp ← write_at arp 38 (be32 addr)
  arp ← write_at arp 6 mac
  arp ← write_at arp 0 (replicate 6 0xff)
  write_at arp 12 (be16 eth_p_arp)

-- The branch of the loop for a frame of type ARP: only a request (opcode 1) for our address is
-- answered, to the hardware address that it came from.
unfoldable pub handle_arp : Config → State → Option (State × List Effect)
handle_arp cfg s = do
  opcode ← be16_at s.buffer 20
  target ← slice s.buffer 38 4
  if opcode == 1 && streq target (be32 cfg.if_raw_addr)
      then (do
        sender ← slice s.buffer 22 6
        arp ← write_at s.arp 0 sender
        some (record s { arp = arp }, send_frame arp ∷ []))
      else some (s, [])
