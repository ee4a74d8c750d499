-- ===== src/Tunnel/Targets.antt =====
-- What the command line of the tunnel selects.
use matador.Base.{ℕ, ◌^◌, ◌<◌, ◌≡◌, refl, arith, some, [], ◌∷◌, ◌++◌, append_assoc, append-nil}
use matador.Base.Int.{ℤ, pos}
use matador.Memory.{Bytes}
use matador.CText.{dec, strtol}
use matador.CText.Decimal.{strtol-dec}
use matador.CText.Search.{Lacks, Lacks-append, strchr-append, strchr-none}
use matador.Tunnel.Options.{Options, host_port, or_else, parse_target}

-- `host:port` with a decimal port splits into the two.
pub host_port-dec :
    (host : Bytes) (port : ℕ) (default : ℤ)
    → Lacks b':' host
    → port < 2 ^ 31
    → host_port (host ++ (b':' ∷ dec port)) default ≡ (host, pos port)
host_port-dec host port default clean small =
    let value : strtol (dec port) ≡ pos port =
      rw append-nil at (strtol-dec port [] (omega arith) tt) in
    rw (strchr-append host (dec port) b':' clean, value) (ground arith)

-- `user@host:port` selects the host, the port and the user, whatever `-l` said. The SSH session goes
-- to the host of `-s`, or else to the same host.
pub parse_target-user :
    (o : Options) (user host : Bytes) (port : ℕ)
    → Lacks b':' user
    → Lacks b'@' user
    → Lacks b':' host
    → port < 2 ^ 31
    → parse_target o (user ++ (b'@' ∷ (host ++ (b':' ∷ dec port)))) ≡ record {
      rhost = host;
      rport = pos port;
      options = record o { suser = some user; shost = some (or_else o.shost host) };
    }
unfolding parse_target
parse_target-user o user host port no_colon no_at clean small =
    let whole : user ++ (b'@' ∷ (host ++ (b':' ∷ dec port)))
        ≡ (user ++ (b'@' ∷ host)) ++ (b':' ∷ dec port) =
      rw append_assoc in
    let lacks : Lacks b':' (user ++ (b'@' ∷ host)) =
      Lacks-append b':' user (b'@' ∷ host) no_colon (refl, clean) in
    rw (
      whole,
      host_port-dec (user ++ (b'@' ∷ host)) port (pos 0) lacks small,
      strchr-append user host b'@' no_at,
    )

-- A bare host keeps the user of `-l`, and its port is 0: the proxy draws one.
pub parse_target-bare :
    (o : Options) (host : Bytes)
    → Lacks b':' host
    → Lacks b'@' host
    → parse_target o host ≡ record {
      rhost = host;
      rport = pos 0;
      options = record o { shost = some (or_else o.shost host) };
    }
unfolding parse_target
parse_target-bare o host no_colon no_at =
    rw (strchr-none host b':' no_colon, strchr-none host b'@' no_at)
