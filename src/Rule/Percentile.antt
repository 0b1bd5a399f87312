-- ===== src/Rule/Percentile.antt =====
-- FNV and Percentile of rule/expr.go.
use regula.Prelude.{
  ℕ, ℤ, pos, ◌%◌, ◌<◌, ◌^◌, Bool, true, false, [], ◌∷◌, ◌≡◌, refl, arith, leb_ℤ, rem, if◌then◌else◌,
}
use regula.Outcome.{ok}
use regula.Strconv.{parse_int, checked}
use regula.Strconv.RoundTrip.{parse_int-format_int}
use regula.Hash.{bytes, sum32, sum32-lt}
use regula.Rule.Value.{Value, bool_value, int64_value}
use regula.Rule.Eval.{eval_fnv, eval_percentile, expr_to_int64}

-- The bucket, from 0 to 99, that a value's text is hashed to.
abbrev pub bucket : Value → ℕ
bucket v = sum32 (bytes v.content) % 100

expr_to_int64-fnv :
    (v : Value) → expr_to_int64 (eval_fnv (ok v ∷ [])) ≡ ok (pos (sum32 (bytes v.content)))
unfolding expr_to_int64 eval_fnv int64_value
expr_to_int64-fnv v =
    let fits : sum32 (bytes v.content) < 2 ^ 32 = sum32-lt (bytes v.content) in
    rw (parse_int-format_int (pos (sum32 (bytes v.content))) (omega arith))

bool_value-if : (b : Bool) → (if b then bool_value true else bool_value false) ≡ bool_value b
bool_value-if true = refl
bool_value-if false = refl

-- Percentile returns whether the bucket of the first value is at most the number in the second:
-- printing the hash and reading it back changes nothing.
pub eval_percentile-bucket :
    (v w : Value) (p : ℤ)
    → checked (parse_int w.content) ≡ ok p
    → eval_percentile (ok v ∷ ok w ∷ []) ≡ ok (bool_value (leb_ℤ (pos (bucket v)) p))
unfolding eval_percentile
eval_percentile-bucket v w p h =
    rw (expr_to_int64-fnv v) (rw h (unfold rem in rw (bool_value-if _)))
