-- ===== src/Tun2socks/Arguments.antt =====
-- tun2socks.c: `parse_arguments`. What `parse_loglevel` and `BLogGlobal_GetChannelByName` answer are
-- arguments. A channel that the latter finds is one of BLOG_NUM_CHANNELS, so `loglevels` is a function.
-- Messages on stderr are left out.
use matador.Base.{
  ℕ, Bool, true, false, not, ◌&&◌, ◌||◌, Option, none, some, List, [], ◌∷◌, ◌==◌, if◌then◌else◌,
  ◌>>=◌,
}
use matador.Base.Int.{ℤ, pos, negsuc, minus_one, is_neg}
use matador.Memory.{Bytes}
use matador.CText.{text, streq}

-- LOGGER_STDOUT, LOGGER_SYSLOG
pub data Logger : Type 0 where
  stdout syslog : Logger

-- `options`; `none` is NULL.
pub record Options : Type 0 where
  pub help : Bool
  pub version : Bool
  pub logger : Logger
  pub logger_syslog_facility : Bytes
  pub logger_syslog_ident : Bytes
  pub loglevel : ℤ
  pub loglevels : ℕ → ℤ
  pub tundev : Option Bytes
  pub netif_ipaddr : Option Bytes
  pub netif_netmask : Option Bytes
  pub netif_ip6addr : Option Bytes
  pub socks_server_addr : Option Bytes
  pub username : Option Bytes
  pub password : Option Bytes
  pub password_file : Option Bytes
  pub append_source_to_username : Bool

-- `name` is `argv[0]`.
abbrev pub initial : Bytes → Options
initial name = record {
  help = false;
  version = false;
  logger = stdout;
  logger_syslog_facility = text "daemon";
  logger_syslog_ident = name;
  loglevel = minus_one;
  loglevels = λ _. minus_one;
  tundev = none;
  netif_ipaddr = none;
  netif_netmask = none;
  netif_ip6addr = none;
  socks_server_addr = none;
  username = none;
  password = none;
  password_file = none;
  append_source_to_username = false;
}

-- What the program asks of its log: the level of a text, and the channel of a name, or -1.
pub record LogNames : Type 0 where
  pub parse_loglevel : Bytes → ℤ
  pub get_channel_by_name : Bytes → ℤ

-- What an option does, by the number of arguments that it requires; `none` returns 0.
pub data Kind : Type 0 where
  no_argument : (Options → Options) → Kind
  one_argument : (Bytes → Options → Option Options) → Kind
  two_arguments : (Bytes → Bytes → Options → Option Options) → Kind
  unknown_option : Kind

abbrev pub set_logger : Bytes → Options → Option Options
set_logger arg2 o =
    if streq arg2 (text "stdout")
    then some (record o { logger = stdout })
    else if streq arg2 (text "syslog")
    then some (record o { logger = syslog })
    else none

abbrev pub set_loglevel : LogNames → Bytes → Options → Option Options
set_loglevel l arg2 o =
    let level = l.parse_loglevel arg2 in
    if is_neg level then none else some (record o { loglevel = level })

abbrev pub set_level_at : ℤ → ℤ → Options → Option Options
set_level_at (negsuc n) level o = none
set_level_at (pos n) level o =
    if is_neg level
    then none
    else some (record o { loglevels = λ i. if i == n then level else o.loglevels i })

abbrev pub set_channel_loglevel : LogNames → Bytes → Bytes → Options → Option Options
set_channel_loglevel l arg2 arg3 o =
    set_level_at (l.get_channel_by_name arg2) (l.parse_loglevel arg3) o

-- The chain of `strcmp`.
unfoldable pub kind : LogNames → Bytes → Kind
unfolding streq
kind l arg =
    if streq arg (text "--help")
    then no_argument (λ o. record o { help = true })
    else if streq arg (text "--version")
    then no_argument (λ o. record o { version = true })
    else if streq arg (text "--logger")
    then one_argument set_logger
    else if streq arg (text "--syslog-facility")
    then one_argument (λ s o. some (record o { logger_syslog_facility = s }))
    else if streq arg (text "--syslog-ident")
    then one_argument (λ s o. some (record o { logger_syslog_ident = s }))
    else if streq arg (text "--loglevel")
    then one_argument (set_loglevel l)
    else if streq arg (text "--channel-loglevel")
    then two_arguments (set_channel_loglevel l)
    else if streq arg (text "--tundev")
    then one_argument (λ s o. some (record o { tundev = some s }))
    else if streq arg (text "--netif-ipaddr")
    then one_argument (λ s o. some (record o { netif_ipaddr = some s }))
    else if streq arg (text "--netif-netmask")
    then one_argument (λ s o. some (record o { netif_netmask = some s }))
    else if streq arg (text "--netif-ip6addr")
    then one_argument (λ s o. some (record o { netif_ip6addr = some s }))
    else if streq arg (text "--socks-server-addr")
    then one_argument (λ s o. some (record o { socks_server_addr = some s }))
    else if streq arg (text "--username")
    then one_argument (λ s o. some (record o { username = some s }))
    else if streq arg (text "--password")
    then one_argument (λ s o. some (record o { password = some s }))
    else if streq arg (text "--password-file")
    then one_argument (λ s o. some (record o { password_file = some s }))
    else if streq arg (text "--append-source-to-username")
    then no_argument (λ o. record o { append_source_to_username = true })
    else unknown_option

-- The loop over the arguments, which skips those that an option takes.
unfoldable pub parse_loop : LogNames → List Bytes → Options → Option Options
parse_loop l [] o = some o
parse_loop l (arg ∷ []) o = elim (kind l arg) [
  | no_argument f ↦ some (f o)
  | one_argument f ↦ none
  | two_arguments f ↦ none
  | unknown_option ↦ none
]
parse_loop l (arg ∷ arg2 ∷ []) o = elim (kind l arg) [
  | no_argument f ↦ parse_loop l (arg2 ∷ []) (f o)
  | one_argument f ↦ f arg2 o
  | two_arguments f ↦ none
  | unknown_option ↦ none
]
parse_loop l (arg ∷ arg2 ∷ arg3 ∷ rest) o = elim (kind l arg) [
  | no_argument f ↦ parse_loop l (arg2 ∷ arg3 ∷ rest) (f o)
  | one_argument f ↦ f arg2 o >>= parse_loop l (arg3 ∷ rest)
  | two_arguments f ↦ f arg2 arg3 o >>= parse_loop l rest
  | unknown_option ↦ none
]

abbrev pub is_given : Option Bytes → Bool
is_given none = false
is_given (some s) = true

-- The checks behind the loop.
unfoldable pub check_options : Options → Option Options
check_options o =
    if o.help || o.version
    then some o
    else if not (is_given o.netif_ipaddr)
    then none
    else if not (is_given o.netif_netmask)
    then none
    else if not (is_given o.socks_server_addr)
    then none
    else if is_given o.username
    then (if not (is_given o.password) && not (is_given o.password_file)
        then none
        else if is_given o.password && is_given o.password_file
        then none
        else some o)
    else some o

unfoldable pub parse_arguments : LogNames → List Bytes → Option Options
unfolding parse_loop check_options
parse_arguments l [] = none
parse_arguments l (name ∷ args) = parse_loop l args (initial name) >>= check_options
