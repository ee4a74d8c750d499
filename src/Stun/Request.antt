-- ===== src/Stun/Request.antt =====
-- measurement_proxy/ministun.c: `stun_send`, `stun_req_id` and `stun_request`. What the kernel
-- answers in each round of the retry loop is an argument: the results of `sendto` and `select`, and
-- the datagram of `recvfrom`.
use matador.Base.{
  ℕ, zero, suc, ◌+◌, Bool, true, false, Option, none, some, List, [], ◌∷◌, length, take, ◌==◌,
  if◌then◌else◌, ◌>>=◌,
}
use matador.Base.Int.{ℤ, pos, negsuc, minus_one, is_neg}
use matador.Memory.{Bytes, be16, be16_at, write_at, recv_into}
use matador.Socket.{SockaddrIn, zero_addr}
use matador.Stun.{sizeof_stun_header, stun_get_mapped, stun_handle_packet}

abbrev pub stun_port : ℕ
stun_port = 3478

abbrev pub stun_count : ℕ
stun_count = 3

abbrev pub stun_bindreq : ℕ
stun_bindreq = 0x0001

-- `reqdata` and `reply_buf`
abbrev pub bufsize : ℕ
bufsize = 1024

-- The kernel's part of one round. `received` is `none` where `recvfrom` fails.
pub record Round : Type 0 where
  pub sent : ℤ
  pub selected : ℤ
  pub received : Option Bytes

pub record Sent : Type 0 where
  pub dst : SockaddrIn
  pub datagram : Bytes

-- The datagram: as many bytes of the memory at `resp` as the header says.
unfoldable pub stun_send : SockaddrIn → Bytes → Option Sent
stun_send dst resp = do
  msglen ← be16_at resp 2
  some (record { dst = dst; datagram = take (msglen + sizeof_stun_header) resp })

-- Four words of `random()`, as the 16 bytes that they are in memory.
unfoldable pub stun_req_id : Bytes → Bytes → Option Bytes
stun_req_id random req = write_at req 4 random

-- The header, written into `reqdata` (whose old contents are `junk`) in the order of the source.
unfoldable pub build_request : Bytes → Bytes → Option Bytes
unfolding stun_req_id
build_request random junk = do
  req ← stun_req_id random junk
  req ← write_at req 0 (0 ∷ 0 ∷ [])
  req ← write_at req 2 (0 ∷ 0 ∷ [])
  let reqlen : ℕ = 0
  req ← write_at req 2 (be16 reqlen)
  write_at req 0 (be16 stun_bindreq)

-- How a round ends: `continue`, `break`, or `return 0` with the answer.
pub data Outcome : Type 0 where
  retry stop : Outcome
  answered : SockaddrIn → Outcome

-- From `recvfrom` to the end of the round; `reply_buf` is the memory that it reads into, and one
-- byte less than its size is offered. A datagram of no bytes counts as a failure.
unfoldable pub receive : Bytes → Option Bytes → Option Outcome
receive reply_buf none = some retry
receive reply_buf (some datagram) =
    let res = length (take 1023 datagram) in
    if res == 0 then some retry else (do
      r ←
          stun_handle_packet (recv_into reply_buf 1023 datagram) res (some stun_get_mapped)
            zero_addr
      some (answered r.arg))

-- `select` returned 0 for a timeout, or -1
abbrev pub not_ready : ℤ → Bool
not_ready (pos zero) = true
not_ready (pos (suc n)) = false
not_ready (negsuc n) = true

-- A round behind its `stun_send`; the flag is `answer != NULL`.
unfoldable pub round : Bool → Bytes → Round → Option Outcome
unfolding receive
round wants reply_buf r =
    if is_neg r.sent
    then some retry
    else if wants
    then (if not_ready r.selected then some retry else receive reply_buf r.received)
    else some stop

pub record Requested : Type 0 where
  pub ret : ℤ
  pub answer : Option SockaddrIn
  pub sends : List Sent

abbrev pub also_sent : Sent → Requested → Requested
also_sent s r = record r { sends = s ∷ r.sends }

abbrev pub is_set : Option SockaddrIn → Bool
is_set none = false
is_set (some a) = true

-- The end of a round: the loop again, or the result. `answer` is what the caller passed.
abbrev pub after_round : Option Requested → Option SockaddrIn → Outcome → Option Requested
after_round again answer retry = again
after_round again answer stop = some (record { ret = minus_one; answer = answer; sends = [] })
after_round again answer (answered a) = some (record { ret = pos 0; answer = some a; sends = [] })

-- `for (retry = 0; retry < stuncount; retry++)`, on the number of rounds left.
unfoldable pub retry_loop :
    ℕ → ℕ → SockaddrIn → Bytes → Bytes → (ℕ → Round) → Option SockaddrIn → Option Requested
retry_loop zero i dst req reply_buf kernel answer =
    some (record { ret = minus_one; answer = answer; sends = [] })
retry_loop (suc n) i dst req reply_buf kernel answer = do
  s ← stun_send dst req
  outcome ← round (is_set answer) reply_buf (kernel i)
  r ← after_round (retry_loop n (suc i) dst req reply_buf kernel answer) answer outcome
  some (also_sent s r)

unfoldable pub stun_request :
    ℕ → SockaddrIn → Bytes → Bytes → Bytes → (ℕ → Round) → Option SockaddrIn → Option Requested
stun_request stuncount dst random junk reply_buf kernel answer = do
  req ← build_request random junk
  retry_loop stuncount 0 dst req reply_buf kernel answer
