-- ===== src/Tun2socks/Accept.antt =====
-- tun2socks.c: `listener_accept_func` with its error paths, and `baddr_from_lwip`. What the allocator,
-- lwIP and the SOCKS client answer is an argument; the calls are part of the result.
use matador.Base.{ℕ, ◌%◌, Bool, not, Option, none, some, List, [], ◌∷◌, ◌++◌, if◌then◌else◌}
use matador.Memory.{Bytes}
use matador.CText.{text}
use matador.Tun2socks.{Client, require}
use matador.Tun2socks.Events.{accepted}
use matador.Tun2socks.Setup.{IpAddr, ipv4, ipv6, AuthInfo, auth_password}

-- BAddr: an address and a port, in host order here.
abbrev pub BAddr : Type 0
BAddr = IpAddr × ℕ

-- An address of lwIP: the number for IPv4, 16 bytes for IPv6.
pub record IpxAddr : Type 0 where
  pub ip4 : ℕ
  pub ip6 : Bytes

unfoldable pub baddr_from_lwip : Bool → IpxAddr → ℕ → BAddr
baddr_from_lwip is_ipv6 a port_hostorder =
    if is_ipv6 then (ipv6 a.ip6, port_hostorder % 65536) else (ipv4 a.ip4, port_hostorder % 65536)

-- `struct tcp_pcb`, as far as it is read, and the answers. `printed` is the text of the remote address,
-- `killed` says that the client is freed while the jobs behind the call run, and `junk` is what the
-- fields hold that are not set.
pub record Accepting : Type 0 where
  pub is_ipv6 : Bool
  pub local_ip : IpxAddr
  pub local_port : ℕ
  pub remote_ip : IpxAddr
  pub remote_port : ℕ
  pub err_ok : Bool
  pub malloc_ok : Bool
  pub concat_ok : Bool
  pub socks_ok : Bool
  pub printed : Bytes
  pub killed : Bool
  pub junk : Option Bytes

-- An allocation that fails is not among the calls.
pub data AcceptCall : Type 0 where
  tcp_accepted : Bool → AcceptCall
  malloc_client : AcceptCall
  concat_strings : Bytes → AcceptCall
  socks_init : BAddr → List AuthInfo → BAddr → AcceptCall
  append_client tcp_arg tcp_err tcp_recv free_username free_client : AcceptCall

-- ERR_OK, ERR_MEM, ERR_ABRT
pub data AcceptErr : Type 0 where
  err_ok err_mem err_abrt : AcceptErr

-- The client is there if it was put into the list. `auth` is `socks_auth_info`, which all clients share.
pub record AcceptResult : Type 0 where
  pub code : AcceptErr
  pub client : Option Client
  pub local_addr : BAddr
  pub remote_addr : BAddr
  pub auth : List AuthInfo
  pub calls : List AcceptCall

-- `socks_auth_info[1].password.username = client->socks_username`
abbrev pub set_username : Bytes → List AuthInfo → List AuthInfo
set_username name (a ∷ auth_password old password ∷ rest) = a ∷ auth_password name password ∷ rest
set_username name auth = auth

-- The user of a client: the option's name, "@" and the remote address.
abbrev pub socks_username : Bytes → Bytes → Bytes
socks_username username printed = username ++ (text "@" ++ printed)

-- From BSocksClient_Init on. `free` of a name that is NULL does nothing.
unfoldable pub accept_socks :
    Accepting → BAddr → ℕ → List AuthInfo → List AcceptCall → List AcceptCall → AcceptResult
accept_socks a server num auth so_far free_name =
    let local = baddr_from_lwip a.is_ipv6 a.local_ip a.local_port in
    let remote = baddr_from_lwip a.is_ipv6 a.remote_ip a.remote_port in
    let tried = so_far ++ (socks_init server auth local ∷ []) in
    if not a.socks_ok
    then record {
      code = err_mem;
      client = none;
      local_addr = local;
      remote_addr = remote;
      auth = auth;
      calls = tried ++ (free_name ++ (free_client ∷ []));
    }
    else record {
      code = if a.killed then err_abrt else err_ok;
      client = some (accepted num a.junk);
      local_addr = local;
      remote_addr = remote;
      auth = auth;
      calls = tried ++ (append_client ∷ tcp_arg ∷ tcp_err ∷ tcp_recv ∷ []);
    }

-- The name that is sent to the SOCKS server, if the source is to be in it.
unfoldable pub accept_named :
    Accepting → BAddr → ℕ → Option Bytes → Bool → List AuthInfo → AcceptResult
unfolding accept_socks baddr_from_lwip
accept_named a server num none append_source auth =
    accept_socks a server num auth (tcp_accepted a.is_ipv6 ∷ malloc_client ∷ []) []
accept_named a server num (some username) append_source auth =
    let here = tcp_accepted a.is_ipv6 ∷ malloc_client ∷ [] in
    let name = socks_username username a.printed in
    if not append_source
    then accept_socks a server num auth here []
    else if not a.concat_ok
    then record {
      code = err_mem;
      client = none;
      local_addr = baddr_from_lwip a.is_ipv6 a.local_ip a.local_port;
      remote_addr = baddr_from_lwip a.is_ipv6 a.remote_ip a.remote_port;
      auth = auth;
      calls = here ++ (free_client ∷ []);
    }
    else accept_socks a server num (set_username name auth) (here ++ (concat_strings name ∷ []))
        (free_username ∷ [])

-- `server`, `num`, `username` and `append_source` are the global variables and options.
unfoldable pub listener_accept_func :
    Accepting → BAddr → ℕ → Option Bytes → Bool → List AuthInfo → Option AcceptResult
unfolding accept_named
listener_accept_func a server num username append_source auth = require a.err_ok (
    if not a.malloc_ok
    then some (record {
      code = err_mem;
      client = none;
      local_addr = (ipv4 0, 0);
      remote_addr = (ipv4 0, 0);
      auth = auth;
      calls = tcp_accepted a.is_ipv6 ∷ [];
    })
    else some (accept_named a server num username append_source auth))
