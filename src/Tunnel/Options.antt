-- ===== src/Tunnel/Options.antt =====
-- measurement_proxy/tunnel.c: the options, as `getopt` delivers them, and the splitting of
-- `[user@]host[:port]`. `optarg` and the remaining arguments are texts.
use matador.Base.{
  ℕ, Bool, true, false, Option, none, some, List, [], ◌∷◌, ◌==◌, if◌then◌else◌, ◌>>=◌,
}
use matador.Base.Int.{ℤ, pos}
use matador.Memory.{Bytes}
use matador.CText.{text, streq, strchr, strtol, to_int, atoi}

-- What `getopt` returned: an option letter with its argument, or '?' and 'h'.
pub data Opt : Type 0 where
  opt : ℕ → Bytes → Opt
  unknown : Opt

-- The variables that the options set; `none` is NULL.
pub record Options : Type 0 where
  pub port : ℤ
  pub socksport : ℤ
  pub iface_out : Bytes
  pub tundevice : Option Bytes
  pub nameserver : Bytes
  pub shost : Option Bytes
  pub suser : Option Bytes
  pub spass : Option Bytes
  pub skeyfile : Option Bytes
  pub sport : ℤ
  pub stunserver : Bytes
  pub stunport : ℤ
  pub use_sudo_local : Bool
  pub use_sudo_remote : Bool

-- The flag is the result of the local `sudo -nl`.
abbrev pub defaults : Bool → Options
defaults sudo = record {
  port = pos 0;
  socksport = pos 8880;
  iface_out = text "eth0";
  tundevice = none;
  nameserver = text "8.8.8.8";
  shost = none;
  suser = none;
  spass = none;
  skeyfile = none;
  sport = pos 22;
  stunserver = text "stun.schlund.de";
  stunport = pos 3478;
  use_sudo_local = sudo;
  use_sudo_remote = true;
}

-- `strtol(colon + 1, NULL, 10)` into an `int`
abbrev pub port_of : Bytes → ℤ
port_of s = to_int (strtol s)

-- A host with an optional port: without a colon the port keeps its value.
abbrev pub split_port : Option (Bytes × Bytes) → Bytes → ℤ → Bytes × ℤ
split_port none whole port = (whole, port)
split_port (some (host, rest)) whole port = (host, port_of rest)

abbrev pub host_port : Bytes → ℤ → Bytes × ℤ
host_port arg port = split_port (strchr arg b':') arg port

-- `-e` and `-E`: su or sudo, anything else is an error
abbrev pub su_or_sudo : Bytes → Option Bool
su_or_sudo arg =
    if streq arg (text "su")
    then some false
    else if streq arg (text "sudo")
    then some true
    else none

-- One round of the `switch`; `none` prints the usage and returns -1.
unfoldable pub apply_opt : Options → Opt → Option Options
apply_opt o unknown = none
apply_opt o (opt c arg) =
    if c == b'P'
    then some (record o { port = atoi arg })
    else if c == b'D'
    then some (record o { socksport = atoi arg })
    else if c == b'I'
    then some (record o { iface_out = arg })
    else if c == b'T'
    then some (record o { tundevice = some arg })
    else if c == b'n'
    then some (record o { nameserver = arg })
    else if c == b's'
    then (let h = host_port arg o.sport in some (record o { shost = some h.0; sport = h.1 }))
    else if c == b'l'
    then some (record o { suser = some arg })
    else if c == b'p'
    then some (record o { spass = some arg })
    else if c == b'i'
    then some (record o { skeyfile = some arg })
    else if c == b'S'
    then (let h = host_port arg o.stunport in some (record o { stunserver = h.0; stunport = h.1 }))
    else if c == b'e'
    then (do sudo ← su_or_sudo arg; some (record o { use_sudo_local = sudo }))
    else if c == b'E'
    then (do sudo ← su_or_sudo arg; some (record o { use_sudo_remote = sudo }))
    else none

unfoldable pub apply_opts : Options → List Opt → Option Options
apply_opts o [] = some o
apply_opts o (c ∷ cs) = apply_opt o c >>= λ o'. apply_opts o' cs

-- Where to connect: the host of the proxy and its port, 0 for a random one, and the host and user
-- of the SSH session.
pub record Target : Type 0 where
  pub rhost : Bytes
  pub rport : ℤ
  pub options : Options

-- `ssh_user@remote_host`
abbrev pub split_user : Option (Bytes × Bytes) → Bytes → Option Bytes → Bytes × Option Bytes
split_user none whole suser = (whole, suser)
split_user (some (user, host)) whole suser = (host, some user)

-- `if(shost == NULL) shost = rhost;`
abbrev pub or_else : Option Bytes → Bytes → Bytes
or_else none rhost = rhost
or_else (some shost) rhost = shost

unfoldable pub parse_target : Options → Bytes → Target
parse_target o arg =
    let hp = host_port arg (pos 0) in
    let hu = split_user (strchr hp.0 b'@') hp.0 o.suser in
    record {
      rhost = hu.0;
      rport = hp.1;
      options = record o { suser = hu.1; shost = some (or_else o.shost hu.0) };
    }

abbrev pub with_rest : List Bytes → Options → Option Target
with_rest [] o = none
with_rest (arg ∷ args) o = some (parse_target o arg)

-- The options and `argv[optind]`, NULL where no argument is left.
unfoldable pub parse_args : Bool → List Opt → List Bytes → Option Target
parse_args sudo opts rest = apply_opts (defaults sudo) opts >>= with_rest rest
