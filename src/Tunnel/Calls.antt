-- ===== src/Tunnel/Calls.antt =====
-- measurement_proxy/tunnel.c: the order of the calls on the SSH session's objects.
use matador.Base.{
  ◌≡◌, refl, sym, arith, Bool, true, false, not, ◌&&◌, Option, none, some, List, [], ◌∷◌,
  if◌then◌else◌, ◌>>=◌, inl, inr, ◌⊎◌, Runs, Runs-some, Runs-map,
}
use mathlib.Core.Path.{subst}
use matador.Tunnel.Auth.{Method, Login, established, not_established, key_refused, none_accepted}
use matador.Tunnel.Session.{
  SshCall, session_new, session_free, channel_new, channel_free, session_use, channel_use, scp_new,
  scp_free, scp_use, Answers, talk_stage, receive_stage, pull_stage, push_stage, upload_stage,
  terminal_stage, shell_stage, login_stage, session,
}

pub data Handle : Type 0 where
  absent in_use freed : Handle

pub record Handles : Type 0 where
  pub session : Handle
  pub channel : Handle
  pub upload : Handle
  pub pull : Handle

abbrev pub no_handles : Handles
no_handles = record { session = absent; channel = absent; upload = absent; pull = absent }

-- What a call asks of the object that it is for.
abbrev pub make : Bool → Handle → Option Handle
make ok absent = some (if ok then in_use else absent)
make ok _ = none

abbrev pub use_it : Handle → Option Handle
use_it in_use = some in_use
use_it _ = none

abbrev pub free_it : Handle → Option Handle
free_it in_use = some freed
free_it _ = none

abbrev pub on_scp : (Handle → Option Handle) → Bool → Handles → Option Handles
on_scp f false h = f h.upload >>= λ x. some (record h { upload = x })
on_scp f true h = f h.pull >>= λ x. some (record h { pull = x })

-- A call, `none` where its object is not there; `ssh_free` frees the session's channel, too.
abbrev pub replay_call : SshCall → Handles → Option Handles
replay_call (session_new ok) h = make ok h.session >>= λ x. some (record h { session = x })
replay_call (session_use c) h = use_it h.session >>= λ x. some h
replay_call session_free h =
    free_it h.session >>= λ x. some (record h { session = x; channel = freed })
replay_call (channel_new ok) h =
    use_it h.session >>= λ _. make ok h.channel >>= λ x. some (record h { channel = x })
replay_call (channel_use c) h = use_it h.channel >>= λ x. some h
replay_call channel_free h = free_it h.channel >>= λ x. some (record h { channel = x })
replay_call (scp_new n ok) h = use_it h.session >>= λ _. on_scp (make ok) n h
replay_call (scp_use n c) h = on_scp use_it n h
replay_call (scp_free n) h = on_scp free_it n h

unfoldable pub replay : Handles → List SshCall → Option Handles
replay h [] = some h
replay h (c ∷ cs) = replay_call c h >>= λ h'. replay h' cs

-- The session is freed at the end, unless there was no binary to upload, or no file to write to.
abbrev Ends : Answers → Handles → Type 0
Ends v h = ((v.found && v.resolv_opened) ≡ false) ⊎ (h.session ≡ freed)

-- The calls of a branch.
replay-if :
    {P : Handles → Type 0} (h : Handles) (b : Bool) (xs ys : List SshCall)
    → (b ≡ true → Runs P (replay h xs))
    → (b ≡ false → Runs P (replay h ys))
    → Runs P (replay h (if b then xs else ys))
replay-if h true xs ys f g = f refl
replay-if h false xs ys f g = g refl

module _ (v : Answers) where
  talk_stage-Runs : Runs (Ends v) (
      replay
        (record { session = in_use; channel = in_use; upload = in_use; pull = freed })
        (talk_stage v))
  unfolding replay talk_stage
  talk_stage-Runs =
      replay-if _ v.announced _ _ (λ _. Runs-some _ (inr refl)) (λ _. Runs-some _ (inr refl))

  receive_stage-Runs : Runs (Ends v) (
      replay
        (record { session = in_use; channel = in_use; upload = in_use; pull = in_use })
        (receive_stage v))
  unfolding replay receive_stage
  receive_stage-Runs =
      replay-if _ (not v.new_file) _ _ (λ _. Runs-some _ (inr refl))
        λ _.
          replay-if _ (not v.received) _ _ (λ _. Runs-some _ (inr refl))
            λ _.
              replay-if _ (not v.resolv_opened) _ _ (λ e. Runs-some _ (inl (ground (arith, e))))
                λ _. talk_stage-Runs

  pull_stage-Runs : Runs (Ends v) (
      replay
        (record { session = in_use; channel = in_use; upload = in_use; pull = absent })
        (pull_stage v))
  unfolding replay pull_stage
  pull_stage-Runs =
      replay-if _ (not v.pull_created) _ _ (λ _. Runs-some _ (inr refl))
        λ _.
          replay-if _ (not v.pull_ready) _ _ (λ _. Runs-some _ (inr refl)) λ _. receive_stage-Runs

  push_stage-Runs : Runs (Ends v) (
      replay
        (record { session = in_use; channel = in_use; upload = in_use; pull = absent })
        (push_stage v))
  unfolding replay push_stage
  push_stage-Runs =
      replay-if _ (not v.found) _ _ (λ e. Runs-some _ (inl (ground (arith, e))))
        λ _.
          replay-if _ (not (v.pushed && v.readable)) _ _ (λ _. Runs-some _ (inr refl))
            λ _. pull_stage-Runs

  upload_stage-Runs : Runs (Ends v) (
      replay
        (record { session = in_use; channel = in_use; upload = absent; pull = absent })
        (upload_stage v))
  unfolding replay upload_stage
  upload_stage-Runs =
      replay-if _ (not v.upload_created) _ _ (λ _. Runs-some _ (inr refl))
        λ _. replay-if _ (not v.upload_ready) _ _ (λ _. Runs-some _ (inr refl)) λ _. push_stage-Runs

  terminal_stage-Runs : Runs (Ends v) (
      replay
        (record { session = in_use; channel = in_use; upload = absent; pull = absent })
        (terminal_stage v))
  unfolding replay terminal_stage
  terminal_stage-Runs =
      replay-if _ (not v.pty) _ _ (λ _. Runs-some _ (inr refl))
        λ _.
          replay-if _ (not v.pty_size) _ _ (λ _. Runs-some _ (inr refl))
            λ _. replay-if _ (not v.shell) _ _ (λ _. Runs-some _ (inr refl)) λ _. upload_stage-Runs

  shell_stage-Runs : Runs (Ends v) (
      replay
        (record { session = in_use; channel = absent; upload = absent; pull = absent })
        (shell_stage v))
  unfolding replay shell_stage
  shell_stage-Runs =
      replay-if _ (not v.has_channel) _ _ (λ _. Runs-some _ (inr refl))
        λ _. replay-if _ (not v.opened) _ _ (λ _. Runs-some _ (inr refl)) λ _. terminal_stage-Runs

  login_stage-Runs :
      (l : Login)
      → Runs
          (λ _. Unit {0})
          (replay
            (record { session = in_use; channel = absent; upload = absent; pull = absent })
            (login_stage v l))
  unfolding replay
  login_stage-Runs none_accepted = Runs-some _ tt
  login_stage-Runs (key_refused ms) = Runs-some _ tt
  login_stage-Runs (not_established ms) = Runs-some _ tt
  login_stage-Runs (established ms) = Runs-map (λ _ _. tt) shell_stage-Runs

  -- Whatever libssh answers, no object of the session is used or freed unless a call has made it: not
  -- where that call has failed, and not behind the call that freed it.
  pub session-replay : Runs (λ _. Unit {0}) (replay no_handles (session v))
  unfolding replay session
  session-replay =
      replay-if _ (not v.created) _ _ (λ _. Runs-some _ tt)
        λ _. replay-if _ (not v.connected) _ _ (λ _. Runs-some _ tt) λ _. login_stage-Runs v.login

  session-Ends :
      (ms : List Method)
      → v.created ≡ true
      → v.connected ≡ true
      → v.login ≡ established ms
      → Runs (Ends v) (replay no_handles (session v))
  unfolding replay session
  session-Ends ms e f g =
      replay-if _ (not v.created) _ _ (λ x. absurd (ground (arith, e, x)))
        λ _.
          replay-if _ (not v.connected) _ _ (λ x. absurd (ground (arith, f, x)))
            λ _.
              subst
                (λ l. Runs (Ends v) (
                  replay
                    (record { session = in_use; channel = absent; upload = absent; pull = absent })
                    (login_stage v l)))
                (sym g) shell_stage-Runs

freed_if_found :
    (v : Answers) (h : Handles)
    → v.found ≡ true
    → v.resolv_opened ≡ true
    → Ends v h
    → h.session ≡ freed
freed_if_found v h e o (inl f) = absurd (ground (arith, e, o, f))
freed_if_found v h e o (inr f) = f

-- Behind a login that is established, with a binary to upload and a file that the copy of resolv.conf
-- can be written to, the session is freed however the rest goes: with the proxy's address, or by one
-- of the exits.
pub session-freed :
    (v : Answers) (ms : List Method)
    → v.created ≡ true
    → v.connected ≡ true
    → v.login ≡ established ms
    → v.found ≡ true
    → v.resolv_opened ≡ true
    → Runs (λ h. h.session ≡ freed) (replay no_handles (session v))
session-freed v ms e f g found opened =
    Runs-map (λ h. freed_if_found v h found opened) (session-Ends v ms e f g)
