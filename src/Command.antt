-- ===== src/Command.antt =====
-- The command: LoadConfig and the flag of endpoints of cmd/regula/cli/cli.go, and main of
-- cmd/regula/main.go up to the start of the server.
--
-- Package flag, the loader of confita and time.ParseDuration are parameters: `parse` gives the
-- flags that Parse sets, in order, and the fault at which it stops; `load` overwrites fields from
-- the environment. Durations are nanoseconds. Of the logger only its failure is modelled.
pub mod Flags
pub mod Layers
pub mod Loading
use Prim.Native.Char.{Char, code}
use Prim.Native.String
use regula.Prelude.{
  ℕ, ℤ, pos, ◌*◌, ◌^◌, String, Option, none, some, List, [], ◌∷◌, nat_eq, if◌then◌else◌, ◌==◌,
}
use regula.Outcome.{Error, Result, ok, err, panic, message, ◌>>=◌}
use regula.Paths.{cons_head}
use regula.Server.Setup.{HandlerConfig, handler_timeouts}

pub record Config : Type 0 where
  pub endpoints : List String
  pub namespace : String
  pub address : String
  pub timeout : ℤ
  pub watch_timeout : ℤ
  pub log_level : String

-- `strings.Split(s, ",")`.
unfoldable pub split_commas : String → List String
split_commas String.[] = String.[] ∷ []
split_commas (String.◌∷◌ c s) =
    if nat_eq (code c) b',' then String.[] ∷ split_commas s else cons_head c (split_commas s)

-- `strings.Join(parts, ",")`, the text of the flag.
unfoldable pub join_commas : List String → String
join_commas [] = ""
join_commas (p ∷ []) = p
join_commas (p ∷ (q ∷ ps)) = String.◌++◌ p (String.◌∷◌ "," (join_commas (q ∷ ps)))

-- The text of a flag that was made from its zero value is empty.
unfoldable pub flag_string : Option (List String) → String
unfolding join_commas
flag_string none = ""
flag_string (some parts) = join_commas parts

-- Why LoadConfig returns no configuration: flag.ErrHelp, or another error.
pub data Fault : Type 0 where
  help : Fault
  fault : Error → Fault

-- What LoadConfig does; `crashed` is a panic.
pub data Loaded : Type 0 where
  configured : Config → Loaded
  refused : Fault → Loaded
  crashed : Loaded

abbrev pub seconds : ℕ → ℤ
seconds n = pos (n * 10 ^ 9)

-- The configuration before anything is loaded, with the text of zerolog.DebugLevel.
unfoldable pub default_config : String → Config
default_config debug = record {
  endpoints = "127.0.0.1:2379" ∷ [];
  namespace = "";
  address = "0.0.0.0:5331";
  timeout = seconds 5;
  watch_timeout = seconds 30;
  log_level = debug;
}

abbrev pub namespace_required : Error
namespace_required = message "etcdnamespace is required (use the -etc-namespace flag to set it)"

-- The last test of LoadConfig.
unfoldable pub check_namespace : Config → Loaded
check_namespace cfg =
    if cfg.namespace == "" then refused (fault namespace_required) else configured cfg

-- The flags that are defined.
pub data Flag : Type 0 where
  etcd_namespace log_level etcd_endpoints addr server_timeout server_watch_timeout : Flag

unfoldable pub flag_name : Flag → String
flag_name etcd_namespace = "etcd-namespace"
flag_name log_level = "log-level"
flag_name etcd_endpoints = "etcd-endpoints"
flag_name addr = "addr"
flag_name server_timeout = "server-timeout"
flag_name server_watch_timeout = "server-watch-timeout"

module _ (parse_duration : String → Result ℤ) where
  -- The variable that a flag sets.
  unfoldable pub set_flag : Config → Flag → String → Result Config
  unfolding split_commas
  set_flag cfg etcd_namespace v = ok (record cfg { namespace = v })
  set_flag cfg log_level v = ok (record cfg { log_level = v })
  set_flag cfg etcd_endpoints v = ok (record cfg { endpoints = split_commas v })
  set_flag cfg addr v = ok (record cfg { address = v })
  set_flag cfg server_timeout v = parse_duration v >>= λ d. ok (record cfg { timeout = d })
  set_flag cfg server_watch_timeout v =
      parse_duration v >>= λ d. ok (record cfg { watch_timeout = d })

  unfoldable pub set_flags : Config → List (Flag × String) → Result Config
  unfolding set_flag
  set_flags cfg [] = ok cfg
  set_flags cfg ((f, v) ∷ fs) = set_flag cfg f v >>= λ c. set_flags c fs

  -- What LoadConfig returns once the flags are set.
  unfoldable pub finish_load : Result Config → Option Fault → Loaded
  unfolding check_namespace
  finish_load (ok cfg) none = check_namespace cfg
  finish_load (ok cfg) (some f) = refused f
  finish_load (err e) stop = refused (fault e)
  finish_load panic stop = crashed

  module _ (parse : List String → List (Flag × String) × Option Fault) where
    -- `args[1:]` panics where there are none.
    unfoldable pub parse_args : Config → List String → Loaded
    unfolding set_flags finish_load
    parse_args cfg [] = crashed
    parse_args cfg (program ∷ args) = finish_load (set_flags cfg (parse args).0) (parse args).1

    unfoldable pub load_from : Result Config → List String → Loaded
    unfolding parse_args
    load_from (ok cfg) args = parse_args cfg args
    load_from (err e) args = refused (fault e)
    load_from panic args = crashed

    unfoldable pub load_config : String → (Config → Result Config) → List String → Loaded
    unfolding default_config load_from
    load_config debug load args = load_from (load (default_config debug)) args

-- How main goes on: it exits with a status, or it runs a server on an address, with the
-- configuration of its handler, over the rulesets in etcd of a namespace.
pub data Start : Type 0 where
  exits : ℕ → Start
  runs : (namespace : String) → HandlerConfig → (address : String) → Start
  panics : Start

-- After clientv3.New: Fatal of the logger exits with 1. NewHandler puts defaults for the timeouts.
unfoldable pub connect : Option Error → Config → Start
unfolding handler_timeouts
connect (some e) cfg = exits 1
connect none cfg =
    runs cfg.namespace
      (handler_timeouts (record { timeout = cfg.timeout; watch_timeout = cfg.watch_timeout }))
      cfg.address

-- `parse_level` is the error of zerolog.ParseLevel, at which CreateLogger exits with 1, and `dial`
-- that of clientv3.New for the endpoints.
module _ (parse_level : String → Option Error) (dial : List String → Option Error) where
  unfoldable pub create_logger : Option Error → Config → Start
  unfolding connect
  create_logger (some e) cfg = exits 1
  create_logger none cfg = connect (dial cfg.endpoints) cfg

  unfoldable pub start_main : Loaded → Start
  unfolding create_logger
  start_main (refused help) = exits 0
  start_main (refused (fault e)) = exits 2
  start_main (configured cfg) = create_logger (parse_level cfg.log_level) cfg
  start_main crashed = panics
