-- ===== src/Proxy/Descriptors.antt =====
-- measurement_proxy/proxy.c: the descriptors that `handle_udp` opens, as indices of `fd_udp_port`
-- and members of the sets of `select`.
use matador.Base.{
  ℕ, zero, suc, ◌≡◌, ◌<◌, ◌≤◌, refl, arith, false, Option, none, some, List, [], ◌∷◌, ◌++◌, length,
  take, drop, get_elem?, set?, ◌==◌, ◌>>=◌, take-all, ==-of_lt, get_elem?-append, get_elem?-lt,
}
use matador.Base.Int.{ℤ, pos, negsuc}
use matador.Memory.{Bytes, be16_at, recv_into}
use matador.BindPublic.{inet, bind_public}
use matador.Proxy.{State, buflen, fd_setsize}
use matador.Proxy.Udp.{Sockets, set_fd_udp_port, open_and_send, handle_packet, handle_udp}
use matador.Proxy.Safety.{IsSized, IsUsable, IsWhole}
use matador.Proxy.Loop.{
  Kernel, Turn, goes_on, finished, select_failed, Run, running, stopped, exited,
}

abbrev pub AllUsable : List Kernel → Type 0
AllUsable [] = Unit
AllUsable (k ∷ ks) = (IsUsable k.sockets × IsWhole k.frame) × AllUsable ks

abbrev SizedTurn : Turn → Type 0
SizedTurn (goes_on s out) = IsSized s
SizedTurn (finished s out) = IsSized s
SizedTurn select_failed = Unit

abbrev pub SizedRun : Run → Type 0
SizedRun (running s out) = IsSized s
SizedRun (stopped s out) = IsSized s
SizedRun (exited out) = Unit

-- A descriptor outside of the table: -1, where no socket can be had, or one that is too large.
abbrev pub IsOutside : ℤ → Type 0
IsOutside (pos fd) = fd_setsize ≤ fd
IsOutside (negsuc n) = Unit

set?-outside : (xs : List ℕ) (i v : ℕ) → length xs ≤ i → set? xs i v ≡ none
set?-outside [] i v h = refl
set?-outside (x ∷ xs) zero v h = absurd (omega arith)
set?-outside (x ∷ xs) (suc i) v h = rw (set?-outside xs i v (omega arith))

set_fd_udp_port-outside :
    (ports : List ℕ) (fd : ℤ) (port : ℕ)
    → length ports ≡ fd_setsize
    → IsOutside fd
    → set_fd_udp_port ports fd port ≡ none
unfolding set_fd_udp_port
set_fd_udp_port-outside ports (pos fd) port size h = set?-outside ports fd port (omega arith)
set_fd_udp_port-outside ports (negsuc n) port size h = refl

-- Binding a chain of steps whose last is a fault is a fault.
pub >>=-none {ℓ κ} :
    {A : Type ℓ} {B : Type κ} (m : Option A) (f : A → Option B)
    → ((a : A) → f a ≡ none)
    → (m >>= f) ≡ none
>>=-none none f h = refl
>>=-none (some a) f h = h a

open_and_send-outside :
    (k : Sockets) (s : State) (n : ℕ)
    → length s.fd_udp_port ≡ fd_setsize
    → IsOutside k.socket
    → open_and_send k s n ≡ none
unfolding open_and_send
open_and_send-outside k s n size out = >>=-none (be16_at s.buffer 20) _ λ source.
    >>=-none (bind_public k.resolve k.bind (inet (record { sin_port = source; s_addr = 0 }))) _
      λ bound.
        >>=-none (be16_at s.buffer 22) _
          λ dest. rw (set_fd_udp_port-outside s.fd_udp_port k.socket dest size out)

-- A UDP packet from the tunnel: more than four bytes, with the protocol number of UDP.
pub record IsUdpPacket (d : Bytes) : Type 0 where
  pub protocol : get_elem? d 9 ≡ some 17
  pub short : length d ≤ buflen

-- A UDP packet for which `socket` gives no descriptor of the table makes the proxy write outside
-- of `fd_udp_port`.
pub handle_udp-outside :
    (k : Sockets) (s : State) (d : Bytes)
    → length s.fd_udp_port ≡ fd_setsize
    → IsUdpPacket d
    → IsOutside k.socket
    → handle_udp k s (some d) ≡ none
unfolding handle_udp handle_packet recv_into
handle_udp-outside k s d size udp out =
    let whole : take buflen d ≡ d = take-all buflen d udp.short in
    let long : 9 < length d = get_elem?-lt d 9 udp.protocol in
    let not_exit : (length d == 4) ≡ false = ==-of_lt (length d) 4 (omega arith) in
    let filled : (length d == 0) ≡ false = ==-of_lt (length d) 0 (omega arith) in
    rw (whole, not_exit, filled, get_elem?-append d (drop (length d) s.buffer) 9 udp.protocol)
      (rw (
        open_and_send-outside k (record s { buffer = d ++ drop (length d) s.buffer }) (length d)
          size out))
