-- ===== src/Proxy/Loop.antt =====
-- measurement_proxy/proxy.c: the `while(!eof_socket)` loop. One turn takes what the kernel answers
-- to its calls: the result of `select` with the set that it leaves, a frame, a datagram, and the
-- calls for a new socket.
use matador.Base.{
  ℕ, zero, suc, ◌-◌, Bool, true, false, Option, none, some, List, [], ◌∷◌, ◌++◌, if◌then◌else◌,
  ◌>>=◌,
}
use matador.Base.Int.{ℤ, pos, negsuc, is_neg}
use matador.Memory.{Bytes, recv_into}
use matador.Proxy.{buflen, Config, State, Effect, drain, FdSet, fd_set}
use matador.Proxy.Raw.{handle_raw}
use matador.Proxy.Udp.{Sockets, handle_udp}

pub record Kernel : Type 0 where
  -- `select(nfds, &rset, 0, 0, 0)`
  pub select : ℤ → FdSet → ℤ × FdSet
  pub frame : Option Bytes
  pub datagram : Option Bytes
  pub sockets : Sockets
  -- `recvfrom` on a socket that was opened for a UDP packet
  pub fake : ℕ → Option Bytes

-- How many descriptors a loop `for(fd = lo; fd <= hi; fd++)` visits.
abbrev pub span : ℕ → ℤ → ℕ
span lo (pos hi) = suc hi - lo
span lo (negsuc n) = 0

-- `maxfd + 1`
unfoldable pub next_fd : ℤ → ℤ
next_fd (pos n) = pos (suc n)
next_fd (negsuc zero) = pos 0
next_fd (negsuc (suc n)) = negsuc n

-- `FD_SET` on `n` descriptors from `fd` on
unfoldable pub fd_set_from : ℕ → ℕ → FdSet → FdSet
fd_set_from zero fd set = set
fd_set_from (suc n) fd set = fd_set_from n (suc fd) (fd_set fd set)

-- The loop over the fake sockets before `select`, which starts at `maxfd + 1`.
unfoldable pub watch_fake : ℤ → FdSet → FdSet
unfolding next_fd fd_set_from
watch_fake maxfd set = elim (next_fd maxfd) [
  | pos fd ↦ fd_set_from (span fd maxfd) fd set
  | negsuc n ↦ set
]

-- The set that is handed to `select`: the bits that the last turn left, and the three sockets.
unfoldable pub watched : Config → State → FdSet
watched cfg s =
    watch_fake s.maxfd
      (fd_set cfg.sock_raw_send (fd_set cfg.sock_raw_recv (fd_set cfg.sock_udp s.rset)))

-- `recvfrom` into the buffer, which stays as it is where the call fails
abbrev pub read_into : Bytes → Option Bytes → Bytes
read_into buffer none = buffer
read_into buffer (some datagram) = recv_into buffer buflen datagram

-- The loop behind the handlers, on `n` descriptors from `fd` on: one that is in the set is read
-- once, into the buffer that the handlers use.
unfoldable pub drains_from : ℕ → ℕ → FdSet → (ℕ → Option Bytes) → Bytes → Bytes × List Effect
drains_from zero fd set fake buffer = (buffer, [])
drains_from (suc n) fd set fake buffer =
    let buffer' = if set fd then read_into buffer (fake fd) else buffer in
    let rest = drains_from n (suc fd) set fake buffer' in
    if set fd then (rest.0, drain fd ∷ rest.1) else rest

unfoldable pub drain_fake : Config → State → (ℕ → Option Bytes) → State × List Effect
unfolding drains_from
drain_fake cfg s fake =
    let lo = suc cfg.sock_raw_send in
    let r = drains_from (span lo s.maxfd) lo s.rset fake s.buffer in
    (record s { buffer = r.0 }, r.1)

-- How a turn ends: the loop goes on, ends with `return 0`, or the process exits because `select`
-- failed.
pub data Turn : Type 0 where
  goes_on finished : State → List Effect → Turn
  select_failed : Turn

abbrev pub turn_end : Bool → State → List Effect → Turn
turn_end true s out = finished s out
turn_end false s out = goes_on s out

unfoldable pub when_ready : {A : Type 0} → Bool → A → Option A → Option A
when_ready true idle handled = handled
when_ready false idle handled = some idle

unfoldable pub turn : Config → State → Kernel → Option Turn
unfolding when_ready
turn cfg s k =
    let selected = k.select (next_fd s.maxfd) (watched cfg s) in
    let s₁ = record s { rset = selected.1 } in
    if is_neg selected.0 then some select_failed else (do
      raw ← when_ready (selected.1 cfg.sock_raw_recv) (s₁, []) (handle_raw cfg s₁ k.frame)
      udp ←
          when_ready (selected.1 cfg.sock_udp) (false, raw.0, [])
            (handle_udp k.sockets raw.0 k.datagram)
      let drained = drain_fake cfg udp.1 k.fake
      some (turn_end udp.0 drained.0 (raw.1 ++ (udp.2 ++ drained.1))))

-- A run of the loop over the kernel's answers, with all that it handed to the kernel. `running`
-- means that the answers are used up.
pub data Run : Type 0 where
  running stopped : State → List Effect → Run
  exited : List Effect → Run

abbrev pub prepend : List Effect → Run → Run
prepend out (running s more) = running s (out ++ more)
prepend out (stopped s more) = stopped s (out ++ more)
prepend out (exited more) = exited (out ++ more)

abbrev pub after_turn : (State → Option Run) → Turn → Option Run
after_turn rest (goes_on s out) = do r ← rest s; some (prepend out r)
after_turn rest (finished s out) = some (stopped s out)
after_turn rest select_failed = some (exited [])

unfoldable pub run : Config → State → List Kernel → Option Run
run cfg s [] = some (running s [])
run cfg s (k ∷ ks) = turn cfg s k >>= after_turn (λ s'. run cfg s' ks)
