-- ===== src/Engine.antt =====
-- engine.go: the type-safe getters of Engine over an Evaluator. The context is passed on untouched
-- and left out.
pub mod Struct
pub mod Typed
use mathlib.Core.List.{foldl}
use regula.Prelude.{
  ℤ, String, Bool, true, false, ◌||◌, Option, none, some, List, [], ◌∷◌, if◌then◌else◌, ◌==◌,
}
use regula.Outcome.{
  Error, Result, ok, err, panic, wrapped, engine_error, EngineError, is_no_match,
  is_ruleset_not_found, ◌>>=◌,
}
use regula.Strconv.{parse_bool, parse_int}
use regula.Floats.{Floats}
use regula.Rule.Value.{Value}
use regula.Rule.Eval.{Params}

-- A nil `Value` is left out.
pub record EvalResult : Type 0 where
  pub value : Value
  pub version : String

-- The interface Evaluator.
pub record Evaluator (fl : Floats) : Type 0 where
  pub eval : String → Option (Params fl) → Result EvalResult
  pub eval_version : String → String → Option (Params fl) → Result EvalResult

pub record EngineConfig : Type 0 where
  pub version : String

-- The type Option of engine.go: a function that updates the configuration.
abbrev pub EngineOption : Type 0
EngineOption = EngineConfig → EngineConfig

unfoldable pub with_version : String → EngineOption
with_version version cfg = record cfg { version = version }

unfoldable pub configure : List EngineOption → EngineConfig
configure opts = foldl (λ cfg opt. opt cfg) (record { version = "" }) opts

-- What `get` returns for an error of the evaluator.
unfoldable pub pass_error : Error → Error
pass_error e =
    if is_ruleset_not_found e || is_no_match e then e else wrapped e "failed to evaluate ruleset"

unfoldable pub check_type : String → Result EvalResult → Result EvalResult
unfolding pass_error
check_type typ (ok res) =
    if res.value.type == typ then ok res else err (engine_error EngineError.type_mismatch)
check_type typ (err e) = err (pass_error e)
check_type typ panic = panic

-- ParseBool's result beside its error.
abbrev beside : Result Bool → Bool × Option Error
beside (ok b) = (b, none)
beside (err e) = (false, some e)
beside panic = (false, none)

module _ (fl : Floats) (e : Evaluator fl) where
  -- What the evaluator is asked for.
  unfoldable pub ask : EngineConfig → String → Option (Params fl) → Result EvalResult
  ask cfg path ps = if cfg.version == "" then e.eval path ps else e.eval_version path cfg.version ps

  unfoldable pub get : String → String → Option (Params fl) → List EngineOption → Result EvalResult
  unfolding check_type ask
  get typ path ps opts = check_type typ (ask (configure opts) path ps)

  unfoldable pub get_string :
      String → Option (Params fl) → List EngineOption → Result (String × EvalResult)
  unfolding get
  get_string path ps opts = do res ← get "string" path ps opts; ok (res.value.content, res)

  -- A text that does not parse comes back as an error beside the result.
  unfoldable pub get_bool :
      String → Option (Params fl) → List EngineOption → Result ((Bool × Option Error) × EvalResult)
  unfolding get
  get_bool path ps opts = do
    res ← get "bool" path ps opts
    ok (beside (parse_bool res.value.content), res)

  unfoldable pub get_int64 :
      String → Option (Params fl) → List EngineOption → Result ((ℤ × Option Error) × EvalResult)
  unfolding get
  get_int64 path ps opts = do res ← get "int64" path ps opts; ok (parse_int res.value.content, res)

  unfoldable pub get_float64 :
      String
      → Option (Params fl)
      → List EngineOption
      → Result ((fl.Float64 × Option Error) × EvalResult)
  unfolding get
  get_float64 path ps opts = do
    res ← get "float64" path ps opts
    ok (fl.parse_float res.value.content, res)
