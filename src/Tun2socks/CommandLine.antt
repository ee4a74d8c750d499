-- ===== src/Tun2socks/CommandLine.antt =====
-- tun2socks.c: `parse_arguments` beside a description of a command line.
use matador.Base.{
  ℕ, ◌≡◌, refl, ◌∙◌, arith, Bool, true, false, not, ◌&&◌, ◌||◌, Option, none, some, List, [], ◌∷◌,
  ◌++◌, ◌==◌, if◌then◌else◌, Ensures, Ensures-some, Ensures-none, Ensures-bind, Ensures-if,
}
use matador.Base.Int.{pos, is_neg}
use matador.Memory.{Bytes}
use matador.CText.{text}
use matador.Tun2socks.Arguments.{
  Logger, stdout, syslog, Options, initial, LogNames, no_argument, one_argument, two_arguments,
  set_loglevel, set_channel_loglevel, kind, parse_loop, is_given, check_options, parse_arguments,
}

-- An option with its arguments. A channel is named and has a number.
pub data Item : Type 0 where
  help version append_source : Item
  logger : Logger → Item
  facility ident tundev ipaddr netmask ip6addr socks_addr username password password_file :
      Bytes → Item
  loglevel : Bytes → Item
  channel_loglevel : Bytes → ℕ → Bytes → Item

abbrev pub logger_name : Logger → Bytes
logger_name stdout = text "stdout"
logger_name syslog = text "syslog"

abbrev pub print_item : Item → List Bytes
print_item help = text "--help" ∷ []
print_item version = text "--version" ∷ []
print_item append_source = text "--append-source-to-username" ∷ []
print_item (logger g) = text "--logger" ∷ logger_name g ∷ []
print_item (facility s) = text "--syslog-facility" ∷ s ∷ []
print_item (ident s) = text "--syslog-ident" ∷ s ∷ []
print_item (tundev s) = text "--tundev" ∷ s ∷ []
print_item (ipaddr s) = text "--netif-ipaddr" ∷ s ∷ []
print_item (netmask s) = text "--netif-netmask" ∷ s ∷ []
print_item (ip6addr s) = text "--netif-ip6addr" ∷ s ∷ []
print_item (socks_addr s) = text "--socks-server-addr" ∷ s ∷ []
print_item (username s) = text "--username" ∷ s ∷ []
print_item (password s) = text "--password" ∷ s ∷ []
print_item (password_file s) = text "--password-file" ∷ s ∷ []
print_item (loglevel s) = text "--loglevel" ∷ s ∷ []
print_item (channel_loglevel name n s) = text "--channel-loglevel" ∷ name ∷ s ∷ []

-- What an option means.
abbrev pub apply_item : LogNames → Options → Item → Options
apply_item l o help = record o { help = true }
apply_item l o version = record o { version = true }
apply_item l o append_source = record o { append_source_to_username = true }
apply_item l o (logger g) = record o { logger = g }
apply_item l o (facility s) = record o { logger_syslog_facility = s }
apply_item l o (ident s) = record o { logger_syslog_ident = s }
apply_item l o (tundev s) = record o { tundev = some s }
apply_item l o (ipaddr s) = record o { netif_ipaddr = some s }
apply_item l o (netmask s) = record o { netif_netmask = some s }
apply_item l o (ip6addr s) = record o { netif_ip6addr = some s }
apply_item l o (socks_addr s) = record o { socks_server_addr = some s }
apply_item l o (username s) = record o { username = some s }
apply_item l o (password s) = record o { password = some s }
apply_item l o (password_file s) = record o { password_file = some s }
apply_item l o (loglevel s) = record o { loglevel = l.parse_loglevel s }
apply_item l o (channel_loglevel name n s) = record o {
  loglevels = λ i. if i == n then l.parse_loglevel s else o.loglevels i;
}

abbrev pub print_items : List Item → List Bytes
print_items [] = []
print_items (i ∷ is) = print_item i ++ print_items is

abbrev pub apply_items : LogNames → Options → List Item → Options
apply_items l o [] = o
apply_items l o (i ∷ is) = apply_items l (apply_item l o i) is

-- Levels are ones that the log knows, and so are channels.
abbrev pub IsItem : LogNames → Item → Type 0
IsItem l (loglevel s) = is_neg (l.parse_loglevel s) ≡ false
IsItem l (channel_loglevel name n s) =
    (l.get_channel_by_name name ≡ pos n) × (is_neg (l.parse_loglevel s) ≡ false)
IsItem l _ = Unit {0}

abbrev pub AllItems : LogNames → List Item → Type 0
AllItems l [] = Unit {0}
AllItems l (i ∷ is) = IsItem l i × AllItems l is

-- Help or version; or the addresses, and with a name either a password or a file with one.
abbrev pub is_complete : Options → Bool
is_complete o =
    (o.help || o.version)
    || (is_given o.netif_ipaddr
        && (is_given o.netif_netmask
            && (is_given o.socks_server_addr
                && (not (is_given o.username)
                    || (is_given o.password && not (is_given o.password_file))
                    || (not (is_given o.password) && is_given o.password_file)))))

check_options-is_complete :
    (o : Options) → check_options o ≡ (if is_complete o then some o else none)
unfolding check_options
check_options-is_complete o = ground arith

module _ (l : LogNames) (arg : Bytes) (o : Options) where
  flag-lem :
      (f : Options → Options)
      → kind l arg ≡ no_argument f
      → (rest : List Bytes) → parse_loop l (arg ∷ rest) o ≡ parse_loop l rest (f o)
  unfolding parse_loop
  flag-lem f e [] = rw (e, parse_loop) refl
  flag-lem f e (a ∷ []) = rw (e, parse_loop) refl
  flag-lem f e (a ∷ b ∷ rest) = rw (e, parse_loop) refl

  one-lem :
      (f : Bytes → Options → Option Options) (arg2 : Bytes) (o' : Options)
      → kind l arg ≡ one_argument f
      → f arg2 o ≡ some o'
      → (rest : List Bytes) → parse_loop l (arg ∷ arg2 ∷ rest) o ≡ parse_loop l rest o'
  unfolding parse_loop
  one-lem f arg2 o' e s [] = rw (e, parse_loop) s
  one-lem f arg2 o' e s (a ∷ rest) = rw (e, parse_loop) (rw s refl)

  two-lem :
      (f : Bytes → Bytes → Options → Option Options) (arg2 arg3 : Bytes) (o' : Options)
      → kind l arg ≡ two_arguments f
      → f arg2 arg3 o ≡ some o'
      → (rest : List Bytes) → parse_loop l (arg ∷ arg2 ∷ arg3 ∷ rest) o ≡ parse_loop l rest o'
  unfolding parse_loop
  two-lem f arg2 arg3 o' e s rest = rw (e, parse_loop) (rw s refl)

set_loglevel-lem :
    (l : LogNames) (s : Bytes) (o : Options)
    → is_neg (l.parse_loglevel s) ≡ false
    → set_loglevel l s o ≡ some (record o { loglevel = l.parse_loglevel s })
set_loglevel-lem l s o h = rw h refl

set_channel-lem :
    (l : LogNames) (name : Bytes) (n : ℕ) (s : Bytes) (o : Options)
    → l.get_channel_by_name name ≡ pos n
    → is_neg (l.parse_loglevel s) ≡ false
    → set_channel_loglevel l name s o ≡ some (apply_item l o (channel_loglevel name n s))
set_channel-lem l name n s o h g = rw (h, g) refl

-- An option is read as what it means, whatever follows it.
parse_loop-item :
    (l : LogNames) (i : Item) (o : Options) (rest : List Bytes)
    → IsItem l i
    → parse_loop l (print_item i ++ rest) o ≡ parse_loop l rest (apply_item l o i)
unfolding kind
parse_loop-item l help o rest h = flag-lem l _ o _ refl rest
parse_loop-item l version o rest h = flag-lem l _ o _ refl rest
parse_loop-item l append_source o rest h = flag-lem l _ o _ refl rest
parse_loop-item l (logger stdout) o rest h = one-lem l _ o _ _ _ refl refl rest
parse_loop-item l (logger syslog) o rest h = one-lem l _ o _ _ _ refl refl rest
parse_loop-item l (facility s) o rest h = one-lem l _ o _ _ _ refl refl rest
parse_loop-item l (ident s) o rest h = one-lem l _ o _ _ _ refl refl rest
parse_loop-item l (tundev s) o rest h = one-lem l _ o _ _ _ refl refl rest
parse_loop-item l (ipaddr s) o rest h = one-lem l _ o _ _ _ refl refl rest
parse_loop-item l (netmask s) o rest h = one-lem l _ o _ _ _ refl refl rest
parse_loop-item l (ip6addr s) o rest h = one-lem l _ o _ _ _ refl refl rest
parse_loop-item l (socks_addr s) o rest h = one-lem l _ o _ _ _ refl refl rest
parse_loop-item l (username s) o rest h = one-lem l _ o _ _ _ refl refl rest
parse_loop-item l (password s) o rest h = one-lem l _ o _ _ _ refl refl rest
parse_loop-item l (password_file s) o rest h = one-lem l _ o _ _ _ refl refl rest
parse_loop-item l (loglevel s) o rest h = one-lem l _ o _ _ _ refl (set_loglevel-lem l s o h) rest
parse_loop-item l (channel_loglevel name n s) o rest h =
    two-lem l _ o _ _ _ _ refl (set_channel-lem l name n s o h.0 h.1) rest

parse_loop-items :
    (l : LogNames) (is : List Item) (o : Options)
    → AllItems l is
    → parse_loop l (print_items is) o ≡ some (apply_items l o is)
parse_loop-items l [] o h = unfold parse_loop in refl
parse_loop-items l (i ∷ is) o h =
    parse_loop-item l i o (print_items is) h.0 ∙ parse_loop-items l is (apply_item l o i) h.1

-- A command line of options is read as what its options mean together, the later ones over the
-- earlier ones, if they are complete, and is refused otherwise.
pub parse_arguments-print_items :
    (l : LogNames) (name : Bytes) (is : List Item)
    → AllItems l is
    → parse_arguments l (name ∷ print_items is)
      ≡ (let o = apply_items l (initial name) is in if is_complete o then some o else none)
unfolding parse_arguments
parse_arguments-print_items l name is h =
    rw (parse_loop-items l is (initial name) h)
      (check_options-is_complete (apply_items l (initial name) is))

-- Options that are accepted are complete, whatever the command line was.
pub parse_arguments-is_complete :
    (l : LogNames) (args : List Bytes)
    → Ensures (λ o. is_complete o ≡ true) (parse_arguments l args)
unfolding parse_arguments
parse_arguments-is_complete l [] = Ensures-none
parse_arguments-is_complete l (name ∷ args) =
    Ensures-bind (parse_loop l args (initial name)) _ λ o _.
      rw (check_options-is_complete o)
        (Ensures-if (is_complete o) _ _ (λ h. Ensures-some o h) λ _. Ensures-none)
