-- ===== src/Command/Loading.antt =====
-- What LoadConfig of cmd/regula/cli/cli.go returns, and how main goes on.
use regula.Prelude.{
  ℤ, String, Option, none, some, List, [], ◌∷◌, ◌==◌, eq_iff, ◌≡◌, ◌≢◌, refl, ap, subst, inl, inr,
  Bool-cases,
}
use regula.Outcome.{Error, Result, ok, err, panic}
use regula.Server.Setup.{HandlerConfig, default_duration}
use regula.Command.{
  Config, Fault, configured, refused, default_config, check_namespace, Flag, etcd_namespace,
  log_level, etcd_endpoints, addr, server_timeout, server_watch_timeout, flag_name, set_flags,
  finish_load, parse_args, load_from, load_config,
}
use regula.Command.Layers.{
  last_text, IsLayered, IsText, IsSplit, IsDuration, layered, namespace_step, level_step,
  endpoints_step, address_step, timeout_step, watch_timeout_step,
}

module _ (parse_duration : String → Result ℤ)
    (parse : List String → List (Flag × String) × Option Fault) (debug : String)
    (load : Config → Result Config) where
  -- Where a configuration comes from: the defaults, over them the environment, over that the flags.
  pub record IsLoaded (args : List String) (cfg : Config) : Type 0 where
    pub program : String
    pub rest : List String
    pub given : args ≡ program ∷ rest
    pub loaded : Config
    pub from_environment : load (default_config debug) ≡ ok loaded
    pub well_formed : (parse rest).1 ≡ none
    pub named : cfg.namespace ≢ ""
    pub namespace :
        IsLayered IsText loaded.namespace (last_text etcd_namespace (parse rest).0) cfg.namespace
    pub level : IsLayered IsText loaded.log_level (last_text log_level (parse rest).0) cfg.log_level
    pub endpoints :
        IsLayered IsSplit loaded.endpoints (last_text etcd_endpoints (parse rest).0) cfg.endpoints
    pub address : IsLayered IsText loaded.address (last_text addr (parse rest).0) cfg.address
    pub timeout :
        IsLayered
          (IsDuration parse_duration)
          loaded.timeout
          (last_text server_timeout (parse rest).0)
          cfg.timeout
    pub watch_timeout :
        IsLayered
          (IsDuration parse_duration)
          loaded.watch_timeout
          (last_text server_watch_timeout (parse rest).0)
          cfg.watch_timeout

  checked :
      (cfg cfg' : Config)
      → check_namespace cfg ≡ configured cfg'
      → (cfg.namespace ≢ "") × (cfg ≡ cfg')
  unfolding check_namespace
  checked cfg cfg' e = elim (Bool-cases (cfg.namespace == "")) [
    | inl b ↦ absurd (refused_one (rw b at e))
    | inr b ↦ (λ empty. cc (b, (eq_iff cfg.namespace "").1 empty), kept (rw b at e))
  ]
    where
      refused_one : {f : Fault} → refused f ≡ configured cfg' → ⊥
      refused_one h = cc

      kept : configured cfg ≡ configured cfg' → cfg ≡ cfg'
      kept h = cc

  finished :
      (out : Result Config) (stop : Option Fault) (cfg : Config)
      → finish_load parse_duration out stop ≡ configured cfg
      → (out ≡ ok cfg) × (stop ≡ none) × (cfg.namespace ≢ "")
  unfolding finish_load
  finished (ok c) none cfg e =
      let (ne, same) = checked c cfg e in (ap ok same, refl, subst (λ x. x.namespace ≢ "") same ne)
  finished (ok c) (some f) cfg e = cc
  finished (err x) stop cfg e = cc
  finished panic stop cfg e = cc

  load_from-IsLoaded :
      (args : List String) (out : Result Config) (cfg : Config)
      → load (default_config debug) ≡ out
      → load_from parse_duration parse out args ≡ configured cfg
      → IsLoaded args cfg
  unfolding load_from parse_args flag_name
  load_from-IsLoaded [] (ok loaded) cfg from e = cc
  load_from-IsLoaded (program ∷ rest) (ok loaded) cfg from e =
      let (set, stop, ne) =
        finished (set_flags parse_duration loaded (parse rest).0) (parse rest).1 cfg e in
      record {
        program = program;
        rest = rest;
        given = refl;
        loaded = loaded;
        from_environment = from;
        well_formed = stop;
        named = ne;
        namespace =
            layered parse_duration IsText (λ c. c.namespace) etcd_namespace
              (namespace_step parse_duration) (parse rest).0 loaded cfg set;
        level =
            layered parse_duration IsText (λ c. c.log_level) log_level (level_step parse_duration)
              (parse rest).0 loaded cfg set;
        endpoints =
            layered parse_duration IsSplit (λ c. c.endpoints) etcd_endpoints
              (endpoints_step parse_duration) (parse rest).0 loaded cfg set;
        address =
            layered parse_duration IsText (λ c. c.address) addr (address_step parse_duration)
              (parse rest).0 loaded cfg set;
        timeout =
            layered parse_duration (IsDuration parse_duration) (λ c. c.timeout) server_timeout
              (timeout_step parse_duration) (parse rest).0 loaded cfg set;
        watch_timeout =
            layered parse_duration (IsDuration parse_duration) (λ c. c.watch_timeout)
              server_watch_timeout (watch_timeout_step parse_duration) (parse rest).0 loaded cfg
              set;
      }
  load_from-IsLoaded args (err x) cfg from e = cc
  load_from-IsLoaded args panic cfg from e = cc

  pub load_config-IsLoaded :
      (args : List String) (cfg : Config)
      → load_config parse_duration parse debug load args ≡ configured cfg
      → IsLoaded args cfg
  unfolding load_config
  load_config-IsLoaded args cfg e = load_from-IsLoaded args (load (default_config debug)) cfg refl e

-- What main runs for a configuration.
abbrev pub IsRun :
    (String → Option Error)
    → (List String → Option Error)
    → Config
    → String
    → HandlerConfig
    → String
    → Type 0
IsRun parse_level dial cfg ns hc address =
    (parse_level cfg.log_level ≡ none)
    × (dial cfg.endpoints ≡ none)
    × (ns ≡ cfg.namespace)
    × (address ≡ cfg.address)
    × (hc.timeout ≡ default_duration 5 cfg.timeout)
    × (hc.watch_timeout ≡ default_duration 30 cfg.watch_timeout)
