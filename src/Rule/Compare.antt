-- ===== src/Rule/Compare.antt =====
-- The operators of rule/expr.go that compare their first operand with each of the others: Eq, In,
-- GT, GTE, LT and LTE.
use regula.Prelude.{
  Bool, true, false, [], ◌∷◌, ◌++◌, ◌≡◌, ◌≢◌, ◌↔◌, refl, All, All-map, String, Bool-cases, inl, inr,
  if◌then◌else◌, ap, ◌∙◌,
}
use regula.Outcome.{Result, ok, err, panic, >>=-eq-ok}
use regula.Rule.Value.{Value, bool_value, equal}
use regula.Rule.Eval.{Outcomes, all_equal, eval_eq, any_equal, eval_in, compare_all, eval_compare}

true≢false : bool_value true ≢ bool_value false
unfolding bool_value
true≢false h = absurd (text_ne (ap (λ v. v.content) h))
  where
    text_ne : ◌≢◌ {A = String} "true" "false"
    text_ne = cc

module _ (test : Value → Value → Result Bool) (v : Value) where
  -- The operand evaluates, and the test of `v` against it holds.
  abbrev pub Passes : Result Value → Type 0
  Passes r = (w : Value) × (r ≡ ok w) × (test v w ≡ ok true)

  -- What the loop does after one test.
  abbrev next : Result Value → Bool → Result Value
  next rest res = if res then rest else ok (bool_value false)

  next-true :
      (rest : Result Value) (res : Bool)
      → next rest res ≡ ok (bool_value true)
      → (res ≡ true) × (rest ≡ ok (bool_value true))
  next-true rest true h = (refl, h)
  next-true rest false h = absurd (true≢false (cc))

  compare_all-true : (rs : Outcomes) → compare_all test v rs ≡ ok (bool_value true) → All Passes rs
  unfolding compare_all
  compare_all-true [] h = tt
  compare_all-true (ok w ∷ rs) h =
      let (res, tested, e) = >>=-eq-ok (test v w) (next (compare_all test v rs)) h in
      let (passed, more) = next-true (compare_all test v rs) res e in
      ((w, refl, rw (← passed) tested), compare_all-true rs more)
  compare_all-true (err x ∷ rs) h = cc
  compare_all-true (panic ∷ rs) h = cc

  compare_all-pass : (rs : Outcomes) → All Passes rs → compare_all test v rs ≡ ok (bool_value true)
  unfolding compare_all
  compare_all-pass [] h = refl
  compare_all-pass (r ∷ rs) ((w, e, passed), h) = rw (e, passed) (compare_all-pass rs h)

-- GT, GTE, LT and LTE return true exactly when the first operand evaluates, each other operand
-- evaluates, and the first value passes the test against each of the others. The others are not
-- compared with one another.
pub eval_compare_iff :
    (text : String) (test : Value → Value → Result Bool) (a b : Result Value) (rs : Outcomes)
    → (eval_compare text test (a ∷ b ∷ rs) ≡ ok (bool_value true))
      ↔ ((v : Value) × (a ≡ ok v) × All (Passes test v) (b ∷ rs))
unfolding eval_compare
eval_compare_iff text test a b rs = (
  λ h.
      let (v, e, more) = >>=-eq-ok a (λ v. compare_all test v (b ∷ rs)) h in
      (v, e, compare_all-true test v (b ∷ rs) more),
  λ (v, e, h). rw e (compare_all-pass test v (b ∷ rs) h),
)

abbrev pub same : Value → Value → Result Bool
same v w = ok (equal v w)

all_equal-eq-compare_all : (v : Value) (rs : Outcomes) → all_equal v rs ≡ compare_all same v rs
unfolding all_equal compare_all
all_equal-eq-compare_all v [] = refl
all_equal-eq-compare_all v (ok w ∷ rs) = rw (all_equal-eq-compare_all v rs)
all_equal-eq-compare_all v (err x ∷ rs) = refl
all_equal-eq-compare_all v (panic ∷ rs) = refl

-- Eq returns true exactly when its operands all evaluate, to values equal to the first.
pub eval_eq_iff :
    (a b : Result Value) (rs : Outcomes)
    → (eval_eq (a ∷ b ∷ rs) ≡ ok (bool_value true)) ↔ (
        (v : Value) × (a ≡ ok v)
        × All (λ r. (w : Value) × (r ≡ ok w) × (equal v w ≡ true)) (b ∷ rs))
unfolding eval_eq
eval_eq_iff a b rs = (
  λ h.
      let (v, e, more) = >>=-eq-ok a (λ v. all_equal v (b ∷ rs)) h in
      (
        v,
        e,
        All-map (λ r (w, p, q). (w, p, cc)) (b ∷ rs)
            (compare_all-true same v (b ∷ rs) (rw (all_equal-eq-compare_all v (b ∷ rs)) at more)),
      ),
  λ (v, e, h).
      rw (e, all_equal-eq-compare_all v (b ∷ rs))
        (compare_all-pass same v (b ∷ rs) (All-map (λ r (w, p, q). (w, p, ap ok q)) (b ∷ rs) h)),
)

-- An operand equal to `v`, and before it operands that evaluate to values other than `v`.
pub record IsFound (v : Value) (rs : Outcomes) : Type 0 where
  pub before : Outcomes
  pub hit : Value
  pub after : Outcomes
  pub split : rs ≡ before ++ ok hit ∷ after
  pub others : All (λ r. (w : Value) × (r ≡ ok w) × (equal v w ≡ false)) before
  pub equal_hit : equal v hit ≡ true

any_equal-IsFound :
    (v : Value) (rs : Outcomes) → any_equal v rs ≡ ok (bool_value true) → IsFound v rs
unfolding any_equal
any_equal-IsFound v [] h = absurd (true≢false (cc))
any_equal-IsFound v (ok w ∷ rs) h = elim (Bool-cases (equal v w)) [
  | inl e ↦ record { before = []; hit = w; after = rs; split = refl; others = tt; equal_hit = e }
  | inr e ↦
      let f = any_equal-IsFound v rs (rw e at h) in
      record {
        before = ok w ∷ f.before;
        hit = f.hit;
        after = f.after;
        split = ap (λ l. ok w ∷ l) f.split;
        others = ((w, refl, e), f.others);
        equal_hit = f.equal_hit;
      }
]
any_equal-IsFound v (err x ∷ rs) h = cc
any_equal-IsFound v (panic ∷ rs) h = cc

any_equal-found :
    (v hit : Value) (before after : Outcomes)
    → All (λ r. (w : Value) × (r ≡ ok w) × (equal v w ≡ false)) before
    → equal v hit ≡ true
    → any_equal v (before ++ ok hit ∷ after) ≡ ok (bool_value true)
unfolding any_equal
any_equal-found v hit [] after _ e = rw e
any_equal-found v hit (r ∷ before) after ((w, p, q), h) e =
    rw (p, q) (any_equal-found v hit before after h e)

-- In returns true exactly when its first operand evaluates, some other operand evaluates to a
-- value equal to the first, and the operands before that one evaluate. Those behind are not read.
pub eval_in_iff :
    (a b : Result Value) (rs : Outcomes)
    → (eval_in (a ∷ b ∷ rs) ≡ ok (bool_value true))
      ↔ ((v : Value) × (a ≡ ok v) × IsFound v (b ∷ rs))
unfolding eval_in
eval_in_iff a b rs = (
  λ h.
      let (v, e, more) = >>=-eq-ok a (λ v. any_equal v (b ∷ rs)) h in
      (v, e, any_equal-IsFound v (b ∷ rs) more),
  λ (v, e, f).
      rw e
        (ap (any_equal v) f.split ∙ any_equal-found v f.hit f.before f.after f.others f.equal_hit),
)
