-- ===== src/Rule/Value/Order.antt =====
-- The orders GT, GTE, LT and LTE of rule/expr.go.
use Prim.Native.Nat.{Ordering, compare as compare_ℕ}
use Prim.Native.Char.{code}
use Prim.Native.String.{compare}
use Prim.Native.String.compare as by_cases
use regula.Prelude.{
  ℕ, String, Bool, not, ◌≡◌, ◌≢◌, refl, ◌↔◌, sym, ap, arith, eq_iff, leb_text, ltb_text,
}
use regula.Outcome.{Result, ok, err, panic, ◌>>=◌}
use regula.Strconv.{parse_bool, parse_int, checked}
use regula.Floats.{Floats}
use regula.Rule.Value.{
  Value, parse_bool_values, parse_int64_values, parse_float64_values, gt, gte, lt, lte, gt_as,
  gte_as, lt_as, lte_as, decide_by, decide_or_false, TypeCase, bool_case, string_case, int64_case,
  float64_case, unsupported, type_case,
}

flip : Ordering → Ordering
flip Ordering.lt = Ordering.gt
flip Ordering.eq = Ordering.eq
flip Ordering.gt = Ordering.lt

compare_ℕ-flip : (a b : ℕ) → compare_ℕ a b ≡ flip (compare_ℕ b a)
unfolding flip
compare_ℕ-flip a b = ground arith

compare-flip : (s t : String) → compare s t ≡ flip (compare t s)
unfolding flip
compare-flip String.[] String.[] = refl
compare-flip String.[] (String.◌∷◌ d t) = rw (by_cases.nil-cons d t, by_cases.cons-nil d t)
compare-flip (String.◌∷◌ c s) String.[] = rw (by_cases.nil-cons c s, by_cases.cons-nil c s)
compare-flip (String.◌∷◌ c s) (String.◌∷◌ d t) =
    rw (by_cases.cons-cons c d s t, by_cases.cons-cons d c t s)
      (ground (arith, compare-flip s t, compare_ℕ-flip (code c) (code d)))

ltb_leb : (s t : String) → ltb_text s t ≡ not (leb_text t s)
unfolding flip
ltb_leb s t = ground (arith, compare-flip s t)

-- Two texts are parsed one after the other; a Boolean comes back only if both parse, and then it
-- does not matter which came first.
module _ {ℓ} {A : Type ℓ} (f g : A → A → Bool) (e : (x y : A) → f x y ≡ g y x) (b : Bool) where
  swap_parsed :
      (r s : Result A)
      → decide_by f (do x ← r; y ← s; ok (x, y)) ≡ ok b
      → decide_by g (do y ← s; x ← r; ok (y, x)) ≡ ok b
  swap_parsed (ok x) (ok y) h = rw (← e x y) h
  swap_parsed (ok x) (err z) h = cc
  swap_parsed (ok x) panic h = cc
  swap_parsed (err z) s h = cc
  swap_parsed panic s h = cc

  decide_or_false_of : (r : Result (A × A)) → decide_by g r ≡ ok b → decide_or_false g r ≡ ok b
  decide_or_false_of (ok (x, y)) h = h
  decide_or_false_of (err z) h = cc
  decide_or_false_of panic h = cc

-- Two tests of one pair.
module _ {ℓ} {A : Type ℓ} (f g : A → A → Bool) (e : (x y : A) → f x y ≡ not (g x y))
    (b : Bool) where
  decide_not : (r : Result (A × A)) → decide_by g r ≡ ok b → decide_by f r ≡ ok (not b)
  decide_not (ok (x, y)) h = let same : g x y ≡ b = cc in rw (e x y, same)
  decide_not (err z) h = cc
  decide_not panic h = cc

module _ (fl : Floats) (v w : Value) where
  gt_as-lt_as : (t : TypeCase) (b : Bool) → gt_as fl t v w ≡ ok b → lt_as fl t w v ≡ ok b
  unfolding gt_as lt_as parse_bool_values parse_int64_values parse_float64_values
  gt_as-lt_as bool_case b h =
      swap_parsed _ _ (λ x y. ground arith) b (parse_bool v.content) (parse_bool w.content) h
  gt_as-lt_as string_case b h = h
  gt_as-lt_as int64_case b h =
      swap_parsed _ _ (λ x y. refl) b (checked (parse_int v.content))
        (checked (parse_int w.content)) h
  gt_as-lt_as float64_case b h =
      swap_parsed _ _ (λ x y. refl) b (checked (fl.parse_float v.content))
        (checked (fl.parse_float w.content)) h
  gt_as-lt_as unsupported b h = cc

  lt_as-gt_as : (t : TypeCase) (b : Bool) → lt_as fl t w v ≡ ok b → gt_as fl t v w ≡ ok b
  unfolding gt_as lt_as parse_bool_values parse_int64_values parse_float64_values
  lt_as-gt_as bool_case b h =
      swap_parsed _ _ (λ x y. ground arith) b (parse_bool w.content) (parse_bool v.content) h
  lt_as-gt_as string_case b h = h
  lt_as-gt_as int64_case b h =
      swap_parsed _ _ (λ x y. refl) b (checked (parse_int w.content))
        (checked (parse_int v.content)) h
  lt_as-gt_as float64_case b h =
      swap_parsed _ _ (λ x y. refl) b (checked (fl.parse_float w.content))
        (checked (fl.parse_float v.content)) h
  lt_as-gt_as unsupported b h = cc

  -- For two values of one type, `v GT w` returns a Boolean without an error exactly when `w LT v`
  -- returns the same Boolean without an error.
  pub gt-lt_iff : v.type ≡ w.type → (b : Bool) → (gt fl v w ≡ ok b) ↔ (lt fl w v ≡ ok b)
  unfolding gt lt
  gt-lt_iff same b =
      let t : type_case w.type ≡ type_case v.type = ap type_case (sym same) in
      (
        λ h. rw t (gt_as-lt_as (type_case v.type) b h),
        λ h. lt_as-gt_as (type_case v.type) b (rw t at h),
      )

  lte_as-not :
      (t : TypeCase) (b : Bool)
      → t ≢ float64_case
      → gt_as fl t v w ≡ ok b
      → lte_as fl t v w ≡ ok (not b)
  unfolding gt_as lte_as
  lte_as-not bool_case b exact h = decide_not _ _ (λ x y. ground arith) b (parse_bool_values v w) h
  lte_as-not string_case b exact h = ground (arith, ltb_leb w.content v.content)
  lte_as-not int64_case b exact h =
      decide_or_false_of _ _ (λ x y. refl) (not b) (parse_int64_values v w)
        (decide_not _ _ (λ x y. ground arith) b (parse_int64_values v w) h)
  lte_as-not float64_case b exact h = absurd (exact refl)
  lte_as-not unsupported b exact h = cc

  lt_as-not :
      (t : TypeCase) (b : Bool)
      → t ≢ float64_case
      → gte_as fl t v w ≡ ok b
      → lt_as fl t v w ≡ ok (not b)
  unfolding gte_as lt_as
  lt_as-not bool_case b exact h = decide_not _ _ (λ x y. ground arith) b (parse_bool_values v w) h
  lt_as-not string_case b exact h = ground (arith, ltb_leb v.content w.content)
  lt_as-not int64_case b exact h = decide_not _ _ (λ x y. ground arith) b (parse_int64_values v w) h
  lt_as-not float64_case b exact h = absurd (exact refl)
  lt_as-not unsupported b exact h = cc

  type_case-ne : v.type ≢ "float64" → type_case v.type ≢ float64_case
  unfolding type_case
  type_case-ne exact h = ground (arith, eq_iff v.type "float64")

  -- For values that are no floats, LTE is the negation of GT, and LT that of GTE, wherever GT and
  -- GTE return a Boolean without an error.
  pub order_complement :
      v.type ≢ "float64"
      → (b : Bool)
      → ((gt fl v w ≡ ok b → lte fl v w ≡ ok (not b))
          × (gte fl v w ≡ ok b → lt fl v w ≡ ok (not b)))
  unfolding gt gte lt lte
  order_complement exact b = (
    lte_as-not (type_case v.type) b (type_case-ne exact),
    lt_as-not (type_case v.type) b (type_case-ne exact),
  )
