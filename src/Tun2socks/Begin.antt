-- ===== src/Tun2socks/Begin.antt =====
-- tun2socks.c: `tun2socks_init`. What BadVPN's base answers is an argument; the calls that make or
-- release something are part of the result.
use matador.Base.{
  ℕ, zero, suc, ◌+◌, Bool, false, not, Option, none, some, List, [], ◌∷◌, ◌++◌, if◌then◌else◌,
}
use matador.Base.Int.{ℤ, minus_one, is_neg}
use matador.Memory.{Bytes}
use matador.Tun2socks.Arguments.{stdout, Options, is_given}
use matador.Tun2socks.Setup.{Processed, Readers, process_arguments}

-- What has to be released again.
pub data Thing : Type 0 where
  blog password_contents reactor signals tap reading read_buffer lwip_job write_buffer tcp_timer
        netif listener listener_ip6 :
      Thing

pub data SetupCall : Type 0 where
  made freed : Thing → SetupCall
  open_standard_streams network_init time_init set_lwip_job set_tcp_timer exec : SetupCall
  set_channel : ℕ → ℤ → SetupCall
  lwip_init netif_up netif_pretend_tcp netif_default netif_ip6_valid : SetupCall
  bind_to_netif accept reactor_quit tcp_tmr : SetupCall

-- `BLog_SetChannelLoglevel` for the channels from `i` on.
unfoldable pub channel_levels : Options → ℕ → ℕ → List SetupCall
channel_levels o i zero = []
channel_levels o i (suc n) =
    (if not (is_neg (o.loglevels i))
      then set_channel i (o.loglevels i) ∷ []
      else if not (is_neg o.loglevel)
      then set_channel i o.loglevel ∷ []
      else [])
    ++ channel_levels o (i + 1) n

-- The answers of the start.
pub record Begin : Type 0 where
  pub syslog_ok : Bool
  pub network_ok : Bool
  pub reactor_ok : Bool
  pub signals_ok : Bool
  pub tap_ok : Bool
  pub read_buffer_ok : Bool
  pub write_buffer_ok : Bool

-- The global variables when the event loop begins, with the calls up to there; `has_callback` and
-- `has_listener` are `tunnel_callback_packet_received != NULL` and `listener != NULL`.
pub record Globals : Type 0 where
  pub has_callback : Bool
  pub has_ip6addr : Bool
  pub processed : Processed
  pub quitting : Bool
  pub have_netif : Bool
  pub has_listener : Bool
  pub has_listener_ip6 : Bool
  pub calls : List SetupCall

-- How a start ends: with a return because of a failure, or before the event loop; `tun2socks_init`
-- returns 0 there.
pub data Started : Type 0 where
  returned : ℕ → List SetupCall → Started
  ready : Globals → Started

-- `BFree` of NULL frees nothing.
abbrev pub free_contents : Option Bytes → List SetupCall
free_contents none = []
free_contents (some b) = freed password_contents ∷ []

abbrev pub made_contents : Option Bytes → List SetupCall
made_contents none = []
made_contents (some b) = made password_contents ∷ []

-- From each label on.
abbrev pub fail1 : Option Bytes → List SetupCall
fail1 contents = free_contents contents ++ (freed blog ∷ [])

abbrev pub fail2 : Option Bytes → List SetupCall
fail2 contents = freed reactor ∷ fail1 contents

abbrev pub fail3 : Option Bytes → List SetupCall
fail3 contents = freed signals ∷ fail2 contents

abbrev pub fail4 : Option Bytes → List SetupCall
fail4 contents = freed reading ∷ freed tap ∷ fail3 contents

abbrev pub fail5 : Option Bytes → List SetupCall
fail5 contents = freed lwip_job ∷ freed read_buffer ∷ fail4 contents

-- The options that `tun2socks_init` leaves, with what `options` was before.
abbrev pub init_options : Options → Option Bytes → Bytes → Bytes → Bytes → Options
init_options old dev ipaddr netmask socksaddr = record old {
  logger = stdout;
  loglevel = minus_one;
  loglevels = λ _. minus_one;
  netif_ip6addr = none;
  username = none;
  password = none;
  password_file = none;
  append_source_to_username = false;
  tundev = dev;
  netif_ipaddr = some ipaddr;
  netif_netmask = some netmask;
  socks_server_addr = some socksaddr;
}

-- Behind `process_arguments`, with whether there is a callback, and with the calls up to there.
unfoldable pub init_stage : Bool → Begin → Options → Processed → List SetupCall → Started
init_stage callback a o p done =
    let contents = p.password_file_contents in
    let read = done ++ (made_contents contents ++ (time_init ∷ [])) in
    if not a.reactor_ok
    then returned 1 (read ++ fail1 contents)
    else if not a.signals_ok
    then returned 1 (read ++ (made reactor ∷ fail2 contents))
    else if not a.tap_ok
    then returned 1 (read ++ (made reactor ∷ made signals ∷ fail3 contents))
    else if not a.read_buffer_ok
    then returned 1
        (read ++ (made reactor ∷ made signals ∷ made tap ∷ made reading ∷ fail4 contents))
    else if not a.write_buffer_ok
    then returned 1 (
        read
        ++ (made reactor
            ∷ made signals
            ∷ made tap
            ∷ made reading
            ∷ made read_buffer
            ∷ made lwip_job
            ∷ set_lwip_job
            ∷ fail5 contents))
    else ready (record {
      has_callback = callback;
      has_ip6addr = is_given o.netif_ip6addr;
      processed = p;
      quitting = false;
      have_netif = false;
      has_listener = false;
      has_listener_ip6 = false;
      calls =
          read
          ++ (made reactor
              ∷ made signals
              ∷ made tap
              ∷ made reading
              ∷ made read_buffer
              ∷ made lwip_job
              ∷ set_lwip_job
              ∷ made write_buffer
              ∷ made tcp_timer
              ∷ set_tcp_timer
              ∷ []);
    })

-- `process_arguments` and what is behind it.
unfoldable pub init_processed : Bool → Begin → Options → Option Processed → List SetupCall → Started
init_processed callback a o none done = returned 1 (done ++ fail1 none)
init_processed callback a o (some p) done = init_stage callback a o p done

-- The logger is standard output; `n` is BLOG_NUM_CHANNELS, and the last argument says whether `callback`
-- is not NULL.
unfoldable pub tun2socks_init :
    Readers → ℕ → Begin → Options → Option Bytes → Bytes → Bytes → Bytes → Bool → Started
unfolding channel_levels init_processed init_stage process_arguments
tun2socks_init r n a old dev ipaddr netmask socksaddr callback =
    let o = init_options old dev ipaddr netmask socksaddr in
    let done = open_standard_streams ∷ made blog ∷ channel_levels o 0 n ++ (network_init ∷ []) in
    if not a.network_ok
    then returned 1 (done ++ fail1 none)
    else init_processed callback a o (process_arguments r o ipaddr netmask socksaddr) done
