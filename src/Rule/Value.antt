-- ===== src/Rule/Value.antt =====
-- The values of rule/expr.go: their constructors, their equality and their order.
--
-- The field `Data` is `content` here.
pub mod Order
use regula.Prelude.{
  ℤ, String, Bool, true, false, not, ◌&&◌, leb_ℤ, ltb_ℤ, if◌then◌else◌, ◌==◌, leb_text, ltb_text,
  ◌++◌,
}
use Prim.Native.String
use regula.Outcome.{Error, message, Result, ok, err, panic, ◌>>=◌}
use regula.Strconv.{format_bool, parse_bool, format_int, parse_int, checked}
use regula.Floats.{Floats}

pub record Value : Type 0 where
  pub kind : String
  pub type : String
  pub content : String

abbrev pub new_value : String → String → Value
new_value typ text = record { kind = "value"; type = typ; content = text }

unfoldable pub bool_value : Bool → Value
unfolding format_bool
bool_value b = new_value "bool" (format_bool b)

unfoldable pub string_value : String → Value
string_value s = new_value "string" s

unfoldable pub int64_value : ℤ → Value
int64_value i = new_value "int64" (format_int i)

-- go/token's tokens, as far as `compare` tells them apart.
pub data Token : Type 0 where
  eql other : Token

-- `*v == *other` compares all three fields.
abbrev same_fields : Value → Value → Bool
same_fields v w = v.kind == w.kind && v.type == w.type && v.content == w.content

unfoldable pub compare : Token → Value → Value → Bool
compare eql v w = same_fields v w
compare other v w = false

unfoldable pub equal : Value → Value → Bool
unfolding compare
equal v w = compare eql v w

unfoldable pub parse_bool_values : Value → Value → Result (Bool × Bool)
parse_bool_values v1 v2 = do b1 ← parse_bool v1.content; b2 ← parse_bool v2.content; ok (b1, b2)

unfoldable pub parse_int64_values : Value → Value → Result (ℤ × ℤ)
parse_int64_values v1 v2 = do
  i1 ← checked (parse_int v1.content)
  i2 ← checked (parse_int v2.content)
  ok (i1, i2)

-- The cases of the switches on a type's name.
pub data TypeCase : Type 0 where
  bool_case string_case int64_case float64_case unsupported : TypeCase

unfoldable pub type_case : String → TypeCase
type_case t =
    if t == "bool"
    then bool_case
    else if t == "string"
    then string_case
    else if t == "int64"
    then int64_case
    else if t == "float64"
    then float64_case
    else unsupported

unfoldable pub unknown_type : Value → Result Bool
unknown_type v = err (message (String.◌++◌ "unknown Value type: " v.type))

-- What is returned of two numbers that were parsed, or their error.
abbrev pub decide_by {ℓ} : {A : Type ℓ} → (A → A → Bool) → Result (A × A) → Result Bool
decide_by f (ok (a, b)) = ok (f a b)
decide_by f (err e) = err e
decide_by f panic = panic

-- The same, where the source returns `false, nil` on an error.
abbrev pub decide_or_false {ℓ} : {A : Type ℓ} → (A → A → Bool) → Result (A × A) → Result Bool
decide_or_false f (ok (a, b)) = ok (f a b)
decide_or_false f (err e) = ok false
decide_or_false f panic = panic

module _ (fl : Floats) where
  open fl use {Float64, parse_float, format_float, leb_float, ltb_float}

  unfoldable pub float64_value : Float64 → Value
  float64_value f = new_value "float64" (format_float f)

  unfoldable pub parse_float64_values : Value → Value → Result (Float64 × Float64)
  parse_float64_values v1 v2 = do
    f1 ← checked (parse_float v1.content)
    f2 ← checked (parse_float v2.content)
    ok (f1, f2)

  -- The cases of GT; each returns false or falls through to true.
  unfoldable pub gt_as : TypeCase → Value → Value → Result Bool
  unfolding unknown_type
  gt_as bool_case v w =
      decide_by (λ v1 v2. if not v1 then false else if v2 then false else true)
        (parse_bool_values v w)
  gt_as string_case v w = ok (if leb_text v.content w.content then false else true)
  gt_as int64_case v w =
      decide_by (λ v1 v2. if leb_ℤ v1 v2 then false else true) (parse_int64_values v w)
  gt_as float64_case v w =
      decide_by (λ v1 v2. if leb_float v1 v2 then false else true) (parse_float64_values v w)
  gt_as unsupported v w = unknown_type v

  unfoldable pub gt : Value → Value → Result Bool
  unfolding gt_as
  gt v w = gt_as (type_case v.type) v w

  unfoldable pub gte_as : TypeCase → Value → Value → Result Bool
  unfolding unknown_type
  gte_as bool_case v w =
      decide_by (λ v1 v2. if not v1 && v2 then false else true) (parse_bool_values v w)
  gte_as string_case v w = ok (if ltb_text v.content w.content then false else true)
  gte_as int64_case v w =
      decide_by (λ v1 v2. if ltb_ℤ v1 v2 then false else true) (parse_int64_values v w)
  gte_as float64_case v w =
      decide_by (λ v1 v2. if ltb_float v1 v2 then false else true) (parse_float64_values v w)
  gte_as unsupported v w = unknown_type v

  unfoldable pub gte : Value → Value → Result Bool
  unfolding gte_as
  gte v w = gte_as (type_case v.type) v w

  unfoldable pub lt_as : TypeCase → Value → Value → Result Bool
  unfolding unknown_type
  lt_as bool_case v w =
      decide_by (λ v1 v2. if v1 then false else if not v2 then false else true)
        (parse_bool_values v w)
  lt_as string_case v w = ok (if leb_text w.content v.content then false else true)
  lt_as int64_case v w =
      decide_by (λ v1 v2. if leb_ℤ v2 v1 then false else true) (parse_int64_values v w)
  lt_as float64_case v w =
      decide_by (λ v1 v2. if leb_float v2 v1 then false else true) (parse_float64_values v w)
  lt_as unsupported v w = unknown_type v

  unfoldable pub lt : Value → Value → Result Bool
  unfolding lt_as
  lt v w = lt_as (type_case v.type) v w

  unfoldable pub lte_as : TypeCase → Value → Value → Result Bool
  unfolding unknown_type
  lte_as bool_case v w =
      decide_by (λ v1 v2. if v1 && not v2 then false else true) (parse_bool_values v w)
  lte_as string_case v w = ok (if ltb_text w.content v.content then false else true)
  -- The error of the numbers' parse is dropped here.
  lte_as int64_case v w =
      decide_or_false (λ v1 v2. if ltb_ℤ v2 v1 then false else true) (parse_int64_values v w)
  lte_as float64_case v w =
      decide_by (λ v1 v2. if ltb_float v2 v1 then false else true) (parse_float64_values v w)
  lte_as unsupported v w = unknown_type v

  unfoldable pub lte : Value → Value → Result Bool
  unfolding lte_as
  lte v w = lte_as (type_case v.type) v w
