-- ===== src/Examples/Client.antt =====
-- Concrete runs of measurement_proxy/tunnel.c.
use matador.Base.{
  ◌≡◌, ◌≢◌, ◌≤◌, refl, arith, true, false, some, [], ◌∷◌, ◌++◌, length, take, drop, replicate, Runs,
  Ensures,
}
use matador.Base.Int.{pos}
use matador.Memory.{Bytes}
use matador.Socket.{SockaddrIn}
use matador.CText.{text, dec, inet_ntoa}
use matador.Tunnel.Options.{Options, defaults, or_else, parse_target}
use matador.Tunnel.Targets.{parse_target-user}
use matador.Tunnel.Auth.{
  AuthCode, auth_success, auth_denied, Method, password, keyfile, autopubkey, Server, login,
}
use matador.Tunnel.Login.{is_established, methods_of, login-plan}
use matador.Tunnel.Arch.{c_string, arch_loop}
use matador.Tunnel.Overflow.{Unanswered, arch_loop-unset}
use matador.Tunnel.Upload.{Transfer, upload}
use matador.Tunnel.Transfer.{ReadsFile, upload-file}
use matador.Tunnel.Announce.{at, hear_proxy}
use matador.Tunnel.Handshake.{printed, hear_proxy-printed}
use matador.Tunnel.Auth.{established}
use matador.Tunnel.Session.{Answers, session}
use matador.Tunnel.Calls.{freed, no_handles, replay, session-replay, session-freed}
use matador.Tunnel.Resolv.{resolv_conf, resolv_conf-stale}

abbrev options : Options
options = defaults true

parse_target-user_example :
    parse_target options (text "me" ++ (b'@' ∷ (text "host" ++ (b':' ∷ dec 7000)))) ≡ record {
      rhost = text "host";
      rport = pos 7000;
      options = record options {
        suser = some (text "me");
        shost = some (or_else options.shost (text "host"));
      };
    }
parse_target-user_example =
    parse_target-user options (text "me") (text "host") 7000 (refl, (refl, tt)) (refl, (refl, tt))
      (refl, (refl, (refl, (refl, tt)))) (omega arith)

-- A server that offers passwords and keys, and takes the key only.
abbrev takes_key : Method → AuthCode
takes_key password = auth_denied
takes_key keyfile = auth_success
takes_key autopubkey = auth_denied

abbrev server : Server
server = record { userauth_none = auth_denied; userauth_list = 6; attempt = takes_key }

none_denied : server.userauth_none ≢ auth_success
none_denied e = ground arith

login-plan_example :
    (is_established (login server (some (text "secret")) (some (text "id_rsa"))) ≡ true)
    × (methods_of (login server (some (text "secret")) (some (text "id_rsa")))
        ≡ password ∷ keyfile ∷ [])
login-plan_example = login-plan server (some (text "secret")) (some (text "id_rsa")) none_denied

arch_loop-unset_example :
    Ensures
      (λ name. (name ≡ []) × Unanswered (replicate 64 0) (text "sh: no proxy\n" ∷ []))
      (arch_loop [] (replicate 64 0) (text "sh: no proxy\n" ∷ []))
arch_loop-unset_example = arch_loop-unset [] (replicate 64 0) (text "sh: no proxy\n" ∷ [])

abbrev file : Bytes
file = text "binary"

-- Reads of four bytes, and writes that succeed.
abbrev transfer : Transfer
transfer = record { read = λ total. some (take 4 (drop total file)); write_fails = λ chunk. false }

transfer-ReadsFile : ReadsFile file transfer
transfer-ReadsFile = record {
  amount = λ total. 4;
  some_bytes = λ total h. omega arith;
  reads = λ total h. refl;
  accepted = λ chunk. refl;
}

upload-file_example :
    Runs (λ u. (u.written ≡ file) × (u.total ≡ length file)) (upload (length file) transfer)
upload-file_example = upload-file file transfer (omega arith) (omega arith) transfer-ReadsFile

abbrev proxy_addr : SockaddrIn
proxy_addr = record { sin_port = 40000; s_addr = 3405803777 }

abbrev noise : Bytes
noise = text "$ "

size_of_printed : length (printed noise [] 3232235521 proxy_addr) ≤ 128
unfolding matador.Proxy.Setup.tunip_line matador.Proxy.Setup.connect_line inet_ntoa dec
size_of_printed = omega arith

old_text :
    c_string (drop (length (printed noise [] 3232235521 proxy_addr)) (replicate 256 0)) ≡ some []
unfolding c_string matador.Proxy.Setup.tunip_line matador.Proxy.Setup.connect_line inet_ntoa dec
old_text = refl

hear_proxy-printed_example :
    hear_proxy (replicate 256 0) (printed noise [] 3232235521 proxy_addr ∷ [])
    ≡ some (record { remote = at (inet_ntoa 3405803777) (pos 40000); tunip = inet_ntoa 3232235521 })
hear_proxy-printed_example =
    hear_proxy-printed noise [] (replicate 256 0) 3232235521 proxy_addr [] (omega arith)
      (refl, (refl, tt)) (refl, (refl, tt)) (refl, (refl, tt)) (omega (arith, size_of_printed))
      old_text

abbrev answers : Answers
answers = record {
  created = true;
  connected = true;
  login = established (autopubkey ∷ []);
  has_channel = true;
  opened = true;
  pty = true;
  pty_size = true;
  shell = true;
  upload_created = true;
  upload_ready = true;
  found = true;
  pushed = true;
  readable = true;
  pull_created = true;
  pull_ready = true;
  new_file = true;
  received = false;
  resolv_opened = true;
  announced = true;
}

session-replay_example : Runs (λ _. Unit {0}) (replay no_handles (session answers))
session-replay_example = session-replay answers

session-freed_example : Runs (λ h. h.session ≡ freed) (replay no_handles (session answers))
session-freed_example = session-freed answers (autopubkey ∷ []) refl refl refl refl refl

stale_text : c_string (text "old" ++ 0 ∷ []) ≡ some (text "old")
unfolding c_string
stale_text = refl

resolv_conf-stale_example :
    resolv_conf (replicate 3 7 ++ (text "old" ++ 0 ∷ [])) (text "ns1") 3
    ≡ some (take 3 (text "ns1") ++ (text "old" ++ text "\n"))
resolv_conf-stale_example =
    resolv_conf-stale (text "ns1") (text "old" ++ 0 ∷ []) (text "old") 3 (refl, (refl, (refl, tt)))
      stale_text (replicate 3 7) refl
