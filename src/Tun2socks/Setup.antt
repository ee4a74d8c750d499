-- ===== src/Tun2socks/Setup.antt =====
-- tun2socks.c: `process_arguments`. What the functions answer that read addresses and files is an
-- argument. Log messages are left out.
use matador.Base.{ℕ, Bool, true, false, Option, none, some, List, [], ◌∷◌, if◌then◌else◌, ◌>>=◌}
use matador.Memory.{Bytes}
use matador.Tun2socks.Arguments.{Options}

-- BIPAddr
pub data IpAddr : Type 0 where
  ipv4 : ℕ → IpAddr
  ipv6 : Bytes → IpAddr

abbrev pub is_ipv4 : IpAddr → Bool
is_ipv4 (ipv4 a) = true
is_ipv4 (ipv6 a) = false

-- The functions that read addresses and files; a file that is NULL cannot be read. `BAddr_Parse2`
-- gives an address and a port.
pub record Readers : Type 0 where
  pub resolve : Bytes → Option IpAddr
  pub parse_ipv6 : Bytes → Option Bytes
  pub parse_addr : Bytes → Option (IpAddr × ℕ)
  pub read_file : Bytes → Option Bytes

-- BSocksClient_auth_info
pub data AuthInfo : Type 0 where
  auth_none : AuthInfo
  auth_password : Bytes → Bytes → AuthInfo

-- The variables that `process_arguments` sets. It sets `password_file_contents` last of all, and so
-- not where it fails.
pub record Processed : Type 0 where
  pub netif_ipaddr : IpAddr
  pub netif_netmask : IpAddr
  pub netif_ip6addr : Option Bytes
  pub socks_server_addr : IpAddr × ℕ
  pub socks_auth_info : List AuthInfo
  pub password_file_contents : Option Bytes

abbrev pub or_null : Option Bytes → (Bytes → Option Bytes) → Option Bytes
or_null none f = none
or_null (some s) f = f s

-- `BIPAddr_Resolve`, and the type has to be BADDR_TYPE_IPV4.
abbrev pub only_ipv4 : Option IpAddr → Option IpAddr
only_ipv4 none = none
only_ipv4 (some a) = if is_ipv4 a then some a else none

-- An address that is not given is not read.
abbrev pub netif_ip6 : Readers → Option Bytes → Option (Option Bytes)
netif_ip6 r none = some none
netif_ip6 r (some s) = r.parse_ipv6 s >>= λ a. some (some a)

-- The second authentication method, and the contents of the password file if it was read.
abbrev pub socks_auth : Readers → Options → Option Bytes → Option (List AuthInfo × Option Bytes)
socks_auth r o none = some (auth_none ∷ [], none)
socks_auth r o (some user) = elim (o.password) [
  | some p ↦ some (auth_none ∷ auth_password user p ∷ [], none)
  | none ↦ or_null o.password_file r.read_file >>= λ contents.
      some (auth_none ∷ auth_password user contents ∷ [], some contents)
]

-- `none` is a return of 0; the addresses of the netif and the SOCKS server are texts.
unfoldable pub process_arguments : Readers → Options → Bytes → Bytes → Bytes → Option Processed
process_arguments r o ipaddr netmask server = do
  ip ← only_ipv4 (r.resolve ipaddr)
  mask ← only_ipv4 (r.resolve netmask)
  ip6 ← netif_ip6 r o.netif_ip6addr
  socks ← r.parse_addr server
  auth ← socks_auth r o o.username
  some (record {
    netif_ipaddr = ip;
    netif_netmask = mask;
    netif_ip6addr = ip6;
    socks_server_addr = socks;
    socks_auth_info = auth.0;
    password_file_contents = auth.1;
  })
