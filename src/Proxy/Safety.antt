-- ===== src/Proxy/Safety.antt =====
-- measurement_proxy/proxy.c: the reads and writes of the handlers in their buffers.
use matador.Base.{
  ℕ, zero, suc, ◌+◌, ◌-◌, ◌≡◌, ◌<◌, ◌≤◌, refl, ap, ◌∙◌, arith, false, ◌&&◌, Option, none, some,
  List, [], ◌∷◌, length, take, drop, get_elem?, set?, ◌==◌, ◌⊎◌, Runs, Runs-some, Runs-bind,
  Runs-if, length-take, length-drop, get_elem?-some,
}
use matador.Base.Int.{pos}
use matador.Memory.{Bytes, be32, recv_into}
use matador.Memory.Laws.{be16_at-Runs, be32_at-Runs, write_at-Runs, length-recv_into}
use matador.CText.{text, streq}
use matador.BindPublic.{inet}
use matador.BindPublic.Rebind.{HonoursFamily, bind_public-target}
use matador.Proxy.{
  Config, State, Effect, buflen, slice, sizeof_arp, fd_setsize, ipproto_tcp, ipproto_udp, eth_p_arp,
  eth_p_ip,
}
use matador.Proxy.Arp.{handle_arp}
use matador.Proxy.Raw.{skip_packet, payload_size, handle_ip, handle_frame, handle_raw}
use matador.Proxy.Udp.{
  Sockets, set_fd_udp_port, send_raw, open_and_send, handle_packet, holds_text, handle_udp,
}

-- The sizes of the arrays.
pub record IsSized (s : State) : Type 0 where
  pub buffer_size : length s.buffer ≡ buflen
  pub arp_size : length s.arp ≡ sizeof_arp
  pub ports_size : length s.fd_udp_port ≡ fd_setsize

-- `socket` gave a descriptor that indexes `fd_udp_port`, and the resolver keeps to the family.
pub record IsUsable (k : Sockets) : Type 0 where
  pub fd : ℕ
  pub socket_is : k.socket ≡ pos fd
  pub in_table : fd < fd_setsize
  pub honest : HonoursFamily k.resolve

-- A packet socket delivers whole Ethernet frames, header included.
abbrev pub IsWhole : Option Bytes → Type 0
IsWhole none = Unit
IsWhole (some frame) = (14 ≤ length frame) ⊎ (length frame ≡ 0)

slice-Runs :
    (buf : Bytes) (i n : ℕ) → i + n ≤ length buf → Runs (λ xs. length xs ≡ n) (slice buf i n)
slice-Runs buf i n h = record {
  value = take n (drop i buf);
  runs = ground arith;
  holds = omega (arith, length-take n (drop i buf), length-drop i buf);
}

get-Runs : (buf : Bytes) (i : ℕ) → i < length buf → Runs (λ _. Unit {0}) (get_elem? buf i)
get-Runs buf i h = let (x, e) = get_elem?-some buf i h in record { value = x; runs = e; holds = tt }

set?-Runs :
    (xs : List ℕ) (i v : ℕ) → i < length xs → Runs (λ ys. length ys ≡ length xs) (set? xs i v)
set?-Runs [] i v h = absurd (omega arith)
set?-Runs (x ∷ xs) zero v h = Runs-some _ refl
set?-Runs (x ∷ xs) (suc i) v h =
    let r = set?-Runs xs i v (omega arith) in
    record { value = x ∷ r.value; runs = rw r.runs; holds = ap suc r.holds }

resize :
    {s t : State}
    → IsSized s
    → length t.buffer ≡ buflen
    → length t.arp ≡ sizeof_arp
    → length t.fd_udp_port ≡ fd_setsize
    → IsSized t
resize z a b c = record { buffer_size = a; arp_size = b; ports_size = c }

abbrev Sized : State × List Effect → Type 0
Sized r = IsSized r.0

handle_arp-Runs : (cfg : Config) (s : State) → IsSized s → Runs Sized (handle_arp cfg s)
unfolding handle_arp
handle_arp-Runs cfg s z =
    Runs-bind _ (be16_at-Runs s.buffer 20 (omega (arith, z.buffer_size))) λ opcode _ _.
      Runs-bind _ (slice-Runs s.buffer 38 4 (omega (arith, z.buffer_size))) λ target _ _.
        Runs-if (opcode == 1 && streq target (be32 cfg.if_raw_addr)) _ _
          (λ _.
            Runs-bind _ (slice-Runs s.buffer 22 6 (omega (arith, z.buffer_size))) λ sender _ size.
              Runs-bind _ (write_at-Runs s.arp 0 sender (omega (arith, z.arp_size)))
                λ arp _ same. Runs-some _ (resize z z.buffer_size (same ∙ z.arp_size) z.ports_size))
          λ _. Runs-some _ z

skip_packet-Runs :
    (cfg : Config) (s : State) (protocol : ℕ)
    → IsSized s
    → Runs (λ _. Unit {0}) (skip_packet cfg s protocol)
unfolding skip_packet
skip_packet-Runs cfg s protocol z =
    Runs-if (protocol == ipproto_tcp) _ _ (λ _. Runs-some _ tt)
      λ _.
        Runs-if (protocol == ipproto_udp) _ _
          (λ _. Runs-bind _ (be32_at-Runs s.buffer 26 (omega (arith, z.buffer_size))) λ saddr _ _.
            Runs-bind _ (be16_at-Runs s.buffer 34 (omega (arith, z.buffer_size))) λ source _ _.
              Runs-bind _ (be16_at-Runs s.buffer 36 (omega (arith, z.buffer_size)))
                λ dest _ _. Runs-some _ tt)
          λ _. Runs-some _ tt

handle_ip-Runs :
    (cfg : Config) (s : State) (n : ℕ)
    → 14 ≤ n
    → n ≤ buflen
    → IsSized s
    → Runs Sized (handle_ip cfg s n)
unfolding handle_ip
handle_ip-Runs cfg s n lo hi z =
    let size : payload_size n ≡ n - 14 = unfold payload_size in (omega arith) in
    Runs-bind _ (be32_at-Runs s.buffer 30 (omega (arith, z.buffer_size))) λ daddr _ _.
      Runs-if (daddr == cfg.if_raw_addr) _ _
        (λ _. Runs-bind _ (get-Runs s.buffer 23 (omega (arith, z.buffer_size))) λ protocol _ _.
          Runs-bind _ (skip_packet-Runs cfg s protocol z) λ skip _ _.
            Runs-if skip _ _ (λ _. Runs-some _ z)
              λ _.
                Runs-bind _
                  (slice-Runs s.buffer 14 (payload_size n) (omega (arith, z.buffer_size, size)))
                  λ packet _ _. Runs-some _ z)
        λ _. Runs-some _ z

whole-le :
    (frame : Bytes)
    → (14 ≤ length frame) ⊎ (length frame ≡ 0)
    → (length (take buflen frame) == 0) ≡ false
    → 14 ≤ length (take buflen frame)
whole-le frame whole filled = ground (arith, length-take buflen frame)

-- Any whole frame is handled without a fault, and the arrays keep their sizes.
pub handle_raw-Runs :
    (cfg : Config) (s : State) (frame : Option Bytes)
    → IsSized s
    → IsWhole frame
    → Runs Sized (handle_raw cfg s frame)
unfolding handle_raw handle_frame
handle_raw-Runs cfg s none z whole = Runs-some _ z
handle_raw-Runs cfg s (some frame) z whole =
    let s' : State = record s { buffer = recv_into s.buffer buflen frame } in
    let n = length (take buflen frame) in
    let z' : IsSized s' =
      resize z
        (length-recv_into s.buffer buflen frame (omega (arith, z.buffer_size)) ∙ z.buffer_size)
        z.arp_size z.ports_size in
    Runs-if (n == 0) _ _ (λ _. Runs-some _ z')
      λ filled. Runs-bind _ (be16_at-Runs s'.buffer 12 (omega (arith, z'.buffer_size))) λ proto _ _.
        Runs-if (proto == eth_p_arp) _ _ (λ _. handle_arp-Runs cfg s' z')
          λ _.
            Runs-if (proto == eth_p_ip) _ _
              (λ _.
                handle_ip-Runs cfg s' n (whole-le frame whole filled)
                  (omega (arith, length-take buflen frame)) z')
              λ _. Runs-some _ z'

send_raw-Runs : (s : State) (n : ℕ) → n ≤ buflen → IsSized s → Runs Sized (send_raw s n)
unfolding send_raw
send_raw-Runs s n h z =
    Runs-bind _ (be32_at-Runs s.buffer 16 (omega (arith, z.buffer_size))) λ daddr _ _.
      Runs-bind _ (slice-Runs s.buffer 0 n (omega (arith, z.buffer_size)))
        λ packet _ _. Runs-some _ z

pub set_fd_udp_port-Runs :
    (k : Sockets) (ports : List ℕ) (port : ℕ)
    → IsUsable k
    → length ports ≡ fd_setsize
    → Runs (λ ys. length ys ≡ fd_setsize) (set_fd_udp_port ports k.socket port)
unfolding set_fd_udp_port
set_fd_udp_port-Runs k ports port u size = rw u.socket_is (
    let r = set?-Runs ports u.fd port (omega (arith, u.in_table)) in
    record { value = r.value; runs = r.runs; holds = r.holds ∙ size })

open_and_send-Runs :
    (k : Sockets) (s : State) (n : ℕ)
    → n ≤ buflen
    → IsUsable k
    → IsSized s
    → Runs Sized (open_and_send k s n)
unfolding open_and_send
open_and_send-Runs k s n h u z =
    Runs-bind _ (be16_at-Runs s.buffer 20 (omega (arith, z.buffer_size))) λ source _ _.
      Runs-bind _
        (bind_public-target k.resolve k.bind (inet (record { sin_port = source; s_addr = 0 }))
          u.honest)
        λ bound _ _.
          Runs-bind _ (be16_at-Runs s.buffer 22 (omega (arith, z.buffer_size))) λ dest _ _.
            Runs-bind _ (set_fd_udp_port-Runs k s.fd_udp_port dest u z.ports_size) λ ports _ size.
              Runs-bind _
                (send_raw-Runs (record s { fd_udp_port = ports; maxfd = k.socket }) n h
                  (resize z z.buffer_size z.arp_size size))
                λ r _ z'. Runs-some _ z'

handle_packet-Runs :
    (k : Sockets) (s : State) (n : ℕ)
    → n ≤ buflen
    → IsUsable k
    → IsSized s
    → Runs Sized (handle_packet k s n)
unfolding handle_packet
handle_packet-Runs k s n h u z =
    Runs-bind _ (get-Runs s.buffer 9 (omega (arith, z.buffer_size))) λ protocol _ _.
      Runs-if (protocol == ipproto_tcp) _ _ (λ _. Runs-some _ z)
        λ _.
          Runs-if (protocol == ipproto_udp) _ _ (λ _. open_and_send-Runs k s n h u z)
            λ _. send_raw-Runs s n h z

-- Any datagram is handled without a fault if the descriptor of a new socket indexes `fd_udp_port`,
-- and the arrays keep their sizes.
pub handle_udp-Runs :
    (k : Sockets) (s : State) (datagram : Option Bytes)
    → IsSized s
    → IsUsable k
    → Runs (λ r. IsSized r.1) (handle_udp k s datagram)
unfolding handle_udp
handle_udp-Runs k s none z u = Runs-some _ z
handle_udp-Runs k s (some datagram) z u =
    let s' : State = record s { buffer = recv_into s.buffer buflen datagram } in
    let n = length (take buflen datagram) in
    let short : n ≤ buflen = omega (arith, length-take buflen datagram) in
    let z' : IsSized s' =
      resize z
        (length-recv_into s.buffer buflen datagram (omega (arith, z.buffer_size)) ∙ z.buffer_size)
        z.arp_size z.ports_size in
    Runs-if (n == 4 && holds_text s'.buffer (text "EXIT")) _ _ (λ _. Runs-some _ z')
      λ _.
        Runs-if (n == 0) _ _ (λ _. Runs-some _ z')
          λ _. Runs-bind _ (handle_packet-Runs k s' n short u z') λ r _ z''. Runs-some _ z''
