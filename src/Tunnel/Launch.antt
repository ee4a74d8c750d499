-- ===== src/Tunnel/Launch.antt =====
-- measurement_proxy/tunnel.c: `main` behind the SSH session: the packet that opens the way to the
-- proxy, the start of tun2socks, the two processes, the commands that configure the TUN device, and the
-- shutdown. The answers of the system and of tun2socks are arguments; what `main` does is a list.
use matador.Base.{ℕ, Bool, Option, none, some, List, [], ◌∷◌, ◌++◌, take, if◌then◌else◌, ◌>>=◌}
use matador.Base.Int.{ℤ, is_neg, to_u16}
use matador.Memory.{Bytes}
use matador.Socket.{SockaddrIn}
use matador.CText.{text, dec_int}
use matador.Tunnel.Arch.{strcat, buflen}

-- `sprintf` into an array of `cap` bytes.
abbrev pub sprintf : ℕ → Bytes → Option Bytes
sprintf cap s = strcat cap [] s

-- What `main` knows here: the options, and what the proxy has announced.
pub record Route : Type 0 where
  pub remote_host : Bytes
  pub remote_port : ℤ
  pub tunip_string : Bytes
  pub mapped_port : ℕ
  pub tundevice : Option Bytes
  pub iface_out : Bytes
  pub socksport : ℤ
  pub suser : Bytes
  pub shost : Bytes
  pub sport : ℤ
  pub skeyfile : Option Bytes
  pub resolv_filename : Bytes

-- `char socksaddress[32]`
unfoldable pub socks_address : ℤ → Option Bytes
socks_address socksport = sprintf 32 (text "127.0.0.1:" ++ dec_int socksport)

abbrev pub key_args : Option Bytes → List Bytes
key_args none = []
key_args (some file) = text "-i" ∷ file ∷ []

-- The child that becomes the SOCKS proxy: its arguments, from `char sportS[10], socksportS[10]`.
unfoldable pub ssh_args : Route → Option (List Bytes)
ssh_args r = do
  sport ← sprintf 10 (dec_int r.sport)
  socksport ← sprintf 10 (dec_int r.socksport)
  some (
      text "ssh"
        ∷ text "-N"
        ∷ text "-l"
        ∷ r.suser
        ∷ text "-p"
        ∷ sport
        ∷ text "-D"
        ∷ socksport
        ∷ key_args r.skeyfile
      ++ (r.shost ∷ []))

-- The commands for `system`, from `char cmd[128]` and `char buffer[BUFLEN]`.
unfoldable pub move_device : Bytes → Option Bytes
move_device dev = sprintf 128 (text "/sbin/ip link set " ++ (dev ++ text " netns tunnel"))

unfoldable pub device_up : Bytes → Option Bytes
device_up dev =
    sprintf buflen (text "/sbin/ip netns exec tunnel ip link set dev " ++ (dev ++ text " up"))

unfoldable pub add_address : Bytes → Bytes → Option Bytes
add_address tunip dev =
    sprintf buflen
      (text "/sbin/ip netns exec tunnel ip addr add " ++ (tunip ++ (text "/32 dev " ++ dev)))

unfoldable pub add_route : Bytes → Option Bytes
add_route tunip =
    sprintf buflen (text "/sbin/ip netns exec tunnel ip route add default  via " ++ tunip)

-- What `main` does.
pub data Action : Type 0 where
  sendto : SockaddrIn → Bytes → Action
  close_udp socket_udp run_tun2socks kill_child kill_ssh : Action
  start_tun2socks : Option Bytes → Bytes → Bytes → Bytes → Action
  fork_ssh fork_child : Action
  -- The child of `fork_ssh`, with the arguments that it starts ssh with, `none` where it faults
  ssh_child : Option (List Bytes) → Action
  bind_to_device : Bytes → Action
  bind_any : ℕ → Action
  system unlink : Bytes → Action

-- The answers: the address of the remote host, the result of `tun2socks_init`, the name of its device
-- (an array of IFNAMSIZ bytes), and the results of `fork`.
pub record System : Type 0 where
  pub host_addr : Option ℕ
  pub init_failed : Bool
  pub devname : Bytes
  pub sshpid : ℤ
  pub child_pid : ℤ

-- The result of `main`, or of `exit`.
pub record Ending : Type 0 where
  pub code : ℕ
  pub actions : List Action

abbrev pub done : List Action → Ending → Ending
done before e = record e { actions = before ++ e.actions }

abbrev pub fails : List Action → Option Ending
fails actions = some (record { code = 1; actions = actions })

-- From the first command on. `buffer` holds the last command when `system` is called again.
unfoldable pub configure : Route → System → SockaddrIn → Option Ending
configure r k peer = do
  cmd ← move_device k.devname
  up ← device_up k.devname
  addr ← add_address r.tunip_string k.devname
  route ← add_route r.tunip_string
  some (record {
    code = 0;
    actions =
        system cmd
        ∷ system up
        ∷ system addr
        ∷ system route
        ∷ run_tun2socks
        ∷ sendto peer (text "EXIT")
        ∷ kill_child
        ∷ kill_ssh
        ∷ system route
        ∷ unlink r.resolv_filename
        ∷ [];
  })

-- From the socket of the UDP tunnel on; SO_BINDTODEVICE gets four bytes of the name.
unfoldable pub open_tunnel : Route → System → SockaddrIn → Option Ending
open_tunnel r k peer =
    let here =
      socket_udp ∷ bind_to_device (take 4 r.iface_out) ∷ bind_any r.mapped_port ∷ fork_child ∷ [] in
    if is_neg k.child_pid then fails here else configure r k peer >>= λ e. some (done here e)

-- Behind `gethostbyname(remote_host)`, with its answer.
unfoldable pub launch_to : Route → System → Option ℕ → Option Ending
unfolding socks_address ssh_args
launch_to r k none = fails []
launch_to r k (some a) = do
  let peer : SockaddrIn = record { sin_port = to_u16 r.remote_port; s_addr = a }
  socksaddress ← socks_address r.socksport
  let here : List Action =
      sendto peer (text "OPEN!")
      ∷ close_udp
      ∷ start_tun2socks r.tundevice r.tunip_string (text "255.255.255.255") socksaddress
      ∷ []
  if k.init_failed
      then fails here
      else if is_neg k.sshpid
      then fails (here ++ (fork_ssh ∷ []))
      else open_tunnel r k peer >>= λ e.
          some (done (here ++ (fork_ssh ∷ ssh_child (ssh_args r) ∷ [])) e)

unfoldable pub launch : Route → System → Option Ending
unfolding launch_to
launch r k = launch_to r k k.host_addr
