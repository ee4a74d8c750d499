-- ===== src/Tunnel/Auth.antt =====
-- measurement_proxy/tunnel.c: the SSH authentication. The answers of libssh are arguments; the
-- result holds the methods that were tried, in order.
use matador.Base.{
  ℕ, ◌+◌, ◌/◌, ◌%◌, Bool, true, false, ◌&&◌, Option, none, some, List, [], ◌∷◌, ◌++◌, ◌==◌,
  if◌then◌else◌,
}
use matador.Memory.{Bytes}

-- SSH_AUTH_SUCCESS, SSH_AUTH_DENIED, and the other codes
pub data AuthCode : Type 0 where
  auth_success auth_denied auth_other : AuthCode

pub data Method : Type 0 where
  password keyfile autopubkey : Method

-- What libssh answers: to the `none` method, the list of methods, and to each attempt.
pub record Server : Type 0 where
  pub userauth_none : AuthCode
  pub userauth_list : ℕ
  pub attempt : Method → AuthCode

-- SSH_AUTH_METHOD_PASSWORD 0x2, SSH_AUTH_METHOD_PUBLICKEY 0x4, SSH_AUTH_METHOD_INTERACTIVE 0x10
abbrev pub has_password : ℕ → Bool
has_password methods = methods / 2 % 2 == 1

abbrev pub has_publickey : ℕ → Bool
has_publickey methods = methods / 4 % 2 == 1

abbrev pub all_methods : ℕ
all_methods = 0x2 + 0x4 + 0x10

abbrev pub is_success : AuthCode → Bool
is_success auth_success = true
is_success auth_denied = false
is_success auth_other = false

-- How the block ends: the login, the exit for a server that takes the `none` method, the exit for a
-- key that is refused, and the exit behind `ssh_auth_done`.
pub data Login : Type 0 where
  established not_established key_refused : List Method → Login
  none_accepted : Login

abbrev pub is_given : Option Bytes → Bool
is_given none = false
is_given (some s) = true

-- From the key file on.
unfoldable pub login_key : Server → ℕ → Option Bytes → List Method → Login
login_key v methods skeyfile tried =
    if is_given skeyfile && has_publickey methods
    then (if is_success (v.attempt keyfile)
        then established (tried ++ keyfile ∷ [])
        else key_refused (tried ++ keyfile ∷ []))
    else if is_success (v.attempt autopubkey)
    then established (tried ++ autopubkey ∷ [])
    else not_established (tried ++ autopubkey ∷ [])

unfoldable pub login_with : Server → ℕ → Option Bytes → Option Bytes → Login
unfolding login_key
login_with v methods spass skeyfile =
    if is_given spass && has_password methods
    then (if is_success (v.attempt password)
        then established (password ∷ [])
        else login_key v methods skeyfile (password ∷ []))
    else login_key v methods skeyfile []

abbrev pub login_code : Server → AuthCode → Option Bytes → Option Bytes → Login
login_code v auth_success spass skeyfile = none_accepted
login_code v auth_denied spass skeyfile = login_with v v.userauth_list spass skeyfile
login_code v auth_other spass skeyfile = login_with v all_methods spass skeyfile

unfoldable pub login : Server → Option Bytes → Option Bytes → Login
unfolding login_with
login v spass skeyfile = login_code v v.userauth_none spass skeyfile
