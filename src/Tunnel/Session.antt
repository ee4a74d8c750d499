-- ===== src/Tunnel/Session.antt =====
-- measurement_proxy/tunnel.c: the SSH session, from `ssh_new` to `ssh_free`: the calls of libssh that
-- `main` makes for its session, its channel and its two transfers, for any answers. What is said on
-- the channel is in Tunnel/Arch and Tunnel/Announce, the upload loop in Tunnel/Upload.
use matador.Base.{Bool, true, false, not, ◌&&◌, List, [], ◌∷◌, if◌then◌else◌}
use matador.Tunnel.Auth.{Login, established, not_established, key_refused, none_accepted}

pub data SessionCall : Type 0 where
  options_set connect userauth_none userauth disconnect : SessionCall

pub data ChannelCall : Type 0 where
  open_session request_pty change_pty_size request_shell command send_eof close : ChannelCall

pub data ScpCall : Type 0 where
  init push_file write pull_request get_size accept_request read close_scp : ScpCall

-- What makes an object, uses it, or frees it. A call that makes one has its success with it. The two
-- transfers are told apart by a flag.
pub data SshCall : Type 0 where
  session_new channel_new : Bool → SshCall
  session_free channel_free : SshCall
  session_use : SessionCall → SshCall
  channel_use : ChannelCall → SshCall
  scp_new : Bool → Bool → SshCall
  scp_free : Bool → SshCall
  scp_use : Bool → ScpCall → SshCall

-- The answers: whether each call succeeds. `found` says that a binary to upload is there, `readable`
-- that it can be opened, and `announced` that the proxy's output had its "CONNECT=" line.
pub record Answers : Type 0 where
  pub created : Bool
  pub connected : Bool
  pub login : Login
  pub has_channel : Bool
  pub opened : Bool
  pub pty : Bool
  pub pty_size : Bool
  pub shell : Bool
  pub upload_created : Bool
  pub upload_ready : Bool
  pub found : Bool
  pub pushed : Bool
  pub readable : Bool
  pub pull_created : Bool
  pub pull_ready : Bool
  pub new_file : Bool
  pub received : Bool
  pub resolv_opened : Bool
  pub announced : Bool

abbrev pub upload : Bool
upload = false

abbrev pub pull : Bool
pull = true

abbrev pub end_session : List SshCall
end_session = session_use disconnect ∷ session_free ∷ []

abbrev pub end_scp : Bool → List SshCall
end_scp n = scp_use n close_scp ∷ scp_free n ∷ end_session

abbrev pub end_channel : List SshCall
end_channel = channel_use close ∷ channel_free ∷ end_session

-- The proxy is started and heard, and the session ends, with or without its address.
unfoldable pub talk_stage : Answers → List SshCall
talk_stage v =
    if v.announced
    then channel_use command ∷ channel_use send_eof ∷ end_channel
    else channel_use command ∷ end_channel

-- From `ssh_scp_pull_request` on; the transfer is freed when the file is written. Where `fopen` fails its
-- NULL is written to, and the process ends there.
unfoldable pub receive_stage : Answers → List SshCall
receive_stage v =
    if not v.new_file
    then scp_use pull pull_request ∷ end_scp pull
    else if not v.received
    then scp_use pull pull_request
      ∷ scp_use pull get_size
      ∷ scp_use pull accept_request
      ∷ scp_use pull read
      ∷ end_scp pull
    else if not v.resolv_opened
    then scp_use pull pull_request
      ∷ scp_use pull get_size
      ∷ scp_use pull accept_request
      ∷ scp_use pull read
      ∷ scp_use pull close_scp
      ∷ []
    else scp_use pull pull_request
      ∷ scp_use pull get_size
      ∷ scp_use pull accept_request
      ∷ scp_use pull read
      ∷ scp_use pull close_scp
      ∷ scp_free pull
      ∷ talk_stage v

-- `/etc/resolv.conf` of the remote host
unfoldable pub pull_stage : Answers → List SshCall
pull_stage v =
    if not v.pull_created
    then scp_new pull false ∷ end_session
    else if not v.pull_ready
    then scp_new pull true ∷ scp_use pull init ∷ scp_free pull ∷ end_session
    else scp_new pull true ∷ scp_use pull init ∷ receive_stage v

-- From `stat` on. A missing binary ends the process with the session open; the transfer of the upload
-- is closed and not freed.
unfoldable pub push_stage : Answers → List SshCall
push_stage v =
    if not v.found
    then []
    else if not (v.pushed && v.readable)
    then scp_use upload push_file ∷ end_scp upload
    else scp_use upload push_file ∷ scp_use upload write ∷ scp_use upload close_scp ∷ pull_stage v

unfoldable pub upload_stage : Answers → List SshCall
upload_stage v =
    if not v.upload_created
    then scp_new upload false ∷ end_session
    else if not v.upload_ready
    then scp_new upload true ∷ scp_use upload init ∷ scp_free upload ∷ end_session
    else scp_new upload true ∷ scp_use upload init ∷ push_stage v

-- The pseudo-terminal and the shell, and the command that asks for the architecture.
unfoldable pub terminal_stage : Answers → List SshCall
terminal_stage v =
    if not v.pty
    then channel_use request_pty ∷ channel_free ∷ end_session
    else if not v.pty_size
    then channel_use request_pty ∷ channel_use change_pty_size ∷ channel_free ∷ end_session
    else if not v.shell
    then channel_use request_pty
      ∷ channel_use change_pty_size
      ∷ channel_use request_shell
      ∷ channel_free
      ∷ end_session
    else channel_use request_pty
      ∷ channel_use change_pty_size
      ∷ channel_use request_shell
      ∷ channel_use command
      ∷ upload_stage v

unfoldable pub shell_stage : Answers → List SshCall
shell_stage v =
    if not v.has_channel
    then channel_new false ∷ end_session
    else if not v.opened
    then channel_new true ∷ channel_use open_session ∷ channel_free ∷ end_session
    else channel_new true ∷ channel_use open_session ∷ terminal_stage v

-- The attempts of the login are one call here. A server that takes the `none` method, or a key that
-- is refused, ends the process with the session open.
abbrev pub login_stage : Answers → Login → List SshCall
login_stage v none_accepted = session_use userauth_none ∷ []
login_stage v (key_refused ms) = session_use userauth_none ∷ session_use userauth ∷ []
login_stage v (not_established ms) = session_use userauth_none ∷ session_use userauth ∷ end_session
login_stage v (established ms) = session_use userauth_none ∷ session_use userauth ∷ shell_stage v

unfoldable pub session : Answers → List SshCall
session v =
    if not v.created
    then session_new false ∷ []
    else if not v.connected
    then session_new true ∷ session_use options_set ∷ session_use connect ∷ []
    else session_new true ∷ session_use options_set ∷ session_use connect ∷ login_stage v v.login
