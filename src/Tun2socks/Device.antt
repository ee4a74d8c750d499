-- ===== src/Tun2socks/Device.antt =====
-- tun2socks.c: the TUN device: what is read from it goes to the tunnel and to lwIP, and what lwIP
-- sends is written to it. A pbuf is the list of its chunks, `p->payload` with `p->len`.
use matador.Base.{
  ℕ, ◌+◌, ◌-◌, ◌/◌, Bool, true, not, Option, none, some, List, [], ◌∷◌, ◌++◌, length, take, ltb,
  ◌==◌, if◌then◌else◌, ◌>>=◌,
}
use matador.Memory.{Bytes, write_at}
use matador.Tun2socks.{require}

-- What `netif_init_func` sets in the netif: its name, which is "ho", and the two functions that write.
pub data OutputFunc : Type 0 where
  netif_output_func netif_output_ip6_func : OutputFunc

pub record NetifFields : Type 0 where
  pub name : Bytes
  pub output : OutputFunc
  pub output_ip6 : OutputFunc

abbrev pub netif_init_func : NetifFields
netif_init_func = record {
  name = b'h' ∷ b'o' ∷ [];
  output = netif_output_func;
  output_ip6 = netif_output_ip6_func;
}

-- How the loop over the chunks ends: "no space left", or with `len` bytes in `device_write_buf`.
pub data Gathered : Type 0 where
  no_space : Gathered
  gathered : Bytes → ℕ → Gathered

-- `do … while (p = p->next)`, with `len` bytes in the buffer.
unfoldable pub gather : ℕ → Bytes → ℕ → List Bytes → Option Gathered
gather mtu buf len [] = some (gathered buf len)
gather mtu buf len (chunk ∷ chunks) =
    let more : Option Gathered = (do
      buf' ← write_at buf len chunk
      gather mtu buf' (len + length chunk) chunks) in
    if ltb (mtu - len) (length chunk) then some no_space else more

abbrev pub sent_chunks : Gathered → List Bytes
sent_chunks no_space = []
sent_chunks (gathered buf len) = take len buf ∷ []

-- The packets handed to `BTap_Send`. `device_write_buf` has room for the MTU. A pbuf has a chunk.
unfoldable pub common_netif_output : Bool → ℕ → Bytes → List Bytes → Option (List Bytes)
common_netif_output quitting mtu device_write_buf [] = none
common_netif_output quitting mtu device_write_buf (chunk ∷ []) =
    if quitting then some [] else if ltb mtu (length chunk) then some [] else some (chunk ∷ [])
common_netif_output quitting mtu device_write_buf (chunk ∷ next ∷ chunks) =
    if quitting
    then some []
    else gather mtu device_write_buf 0 (chunk ∷ next ∷ chunks) >>= λ g. some (sent_chunks g)

-- What becomes of a packet that was read: it is handed to the tunnel, accepted, copied to a pbuf, and
-- the pbuf is handed to lwIP or freed.
pub data Handed : Type 0 where
  to_tunnel ip_input ip6_input : Bytes → Handed
  packet_done pbuf_free : Handed

-- `tunnel_callback_packet_received` is not NULL, which is `has_callback` of the global variables, and
-- the answers: does `pbuf_alloc` return a pbuf, does lwIP return ERR_OK.
pub record Reading : Type 0 where
  pub has_callback : Bool
  pub allocated : Bool
  pub input_ok : Bool

-- The upper half of the first byte; no bytes, no version.
abbrev pub ip_version : Bytes → ℕ
ip_version [] = 0
ip_version (b ∷ bs) = b / 16

-- `netif_input_func`, with whether it returns ERR_OK.
unfoldable pub netif_input_func : Bool → Bool → Bytes → List Handed × Bool
netif_input_func has_ip6addr input_ok p =
    if ip_version p == 4
    then (ip_input p ∷ [], input_ok)
    else if ip_version p == 6
    then (if has_ip6addr then (ip6_input p ∷ [], input_ok) else (pbuf_free ∷ [], true))
    else (pbuf_free ∷ [], true)

-- Behind `netif_input_func` in `device_read_handler_send`.
abbrev pub read_end : List Handed × Bool → List Handed
read_end (handed, ok) = if ok then handed else handed ++ (pbuf_free ∷ [])

abbrev pub callback : Reading → Bytes → List Handed
callback a packet = if a.has_callback then to_tunnel packet ∷ [] else []

unfoldable pub device_read_handler_send : Bool → Bool → Reading → Bytes → Option (List Handed)
unfolding netif_input_func
device_read_handler_send quitting has_ip6addr a packet = require (not quitting) (
    if ltb 65535 (length packet)
    then some (callback a packet ++ (packet_done ∷ []))
    else if not a.allocated
    then some (callback a packet ++ (packet_done ∷ []))
    else some (
        callback a packet
        ++ (packet_done ∷ read_end (netif_input_func has_ip6addr a.input_ok packet))))
