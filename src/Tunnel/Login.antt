-- ===== src/Tunnel/Login.antt =====
-- The authentication against a plan: which methods are tried, in which order, and when it succeeds.
use matador.Base.{
  ℕ, ◌≡◌, ◌≢◌, arith, Bool, true, false, ◌&&◌, ◌||◌, Option, List, [], ◌∷◌, if◌then◌else◌,
}
use matador.Memory.{Bytes}
use matador.Tunnel.Auth.{
  AuthCode, auth_success, auth_denied, Method, password, keyfile, autopubkey, Server, has_password,
  has_publickey, all_methods, is_success, Login, established, not_established, key_refused,
  none_accepted, is_given, login,
}

-- The methods that the server offers: those that it lists if it denies the `none` method, and all
-- of them otherwise.
abbrev pub offered_by : AuthCode → ℕ → ℕ
offered_by auth_denied methods = methods
offered_by _ methods = all_methods

abbrev pub offered : Server → ℕ
offered v = offered_by v.userauth_none v.userauth_list

-- The plan: the password if there is one and the server takes passwords; then the key file if
-- there is one and the server takes keys, and the agent's keys otherwise.
abbrev pub plan_key : ℕ → Option Bytes → List Method
plan_key methods skeyfile =
    if is_given skeyfile && has_publickey methods then keyfile ∷ [] else autopubkey ∷ []

abbrev pub plan : ℕ → Option Bytes → Option Bytes → List Method
plan methods spass skeyfile =
    if is_given spass && has_password methods
    then password ∷ plan_key methods skeyfile
    else plan_key methods skeyfile

-- The plan up to its first success, and whether there is one.
abbrev pub tried : (Method → AuthCode) → List Method → List Method
tried attempt [] = []
tried attempt (m ∷ ms) = m ∷ (if is_success (attempt m) then [] else tried attempt ms)

abbrev pub succeeds : (Method → AuthCode) → List Method → Bool
succeeds attempt [] = false
succeeds attempt (m ∷ ms) = is_success (attempt m) || succeeds attempt ms

abbrev pub is_established : Login → Bool
is_established (established ms) = true
is_established (not_established ms) = false
is_established (key_refused ms) = false
is_established none_accepted = false

abbrev pub methods_of : Login → List Method
methods_of (established ms) = ms
methods_of (not_established ms) = ms
methods_of (key_refused ms) = ms
methods_of none_accepted = []

-- If the server refuses the `none` method, the login is established exactly if a method of the plan
-- succeeds, and what was tried is the plan up to its first success.
pub login-plan :
    (v : Server) (spass skeyfile : Option Bytes)
    → v.userauth_none ≢ auth_success
    → (is_established (login v spass skeyfile)
        ≡ succeeds v.attempt (plan (offered v) spass skeyfile))
      × (methods_of (login v spass skeyfile) ≡ tried v.attempt (plan (offered v) spass skeyfile))
unfolding login
login-plan v spass skeyfile h = ground arith
