-- ===== src/Outcome.antt =====
-- The errors of rule/rule.go, errors.go and store/service.go, and the results of fallible code.
--
-- A Go function that returns `(T, error)` returns a `Result T`. `panic` is a run-time panic, such
-- as a read through a nil pointer: no caller in the repository recovers from one.
use regula.Prelude.{String, Bool, true, false, ◌≡◌, refl, if◌then◌else◌}

-- The error values of rule/rule.go.
pub data RuleError : Type 0 where
  ruleset_not_found param_type_mismatch param_not_found no_match incoherent_type : RuleError

-- The error values of errors.go.
pub data EngineError : Type 0 where
  type_mismatch ruleset_not_found incoherent_type : EngineError

-- The error values of store/service.go.
pub data StoreError : Type 0 where
  not_found not_modified invalid_continue_token : StoreError

-- The reasons of a `strconv.NumError`.
pub data NumReason : Type 0 where
  bad_syntax out_of_range : NumReason

-- An error is compared by identity with the package's error values and with
-- `context.DeadlineExceeded`; `message` is any other error,
-- by its text, and `wrapped` one that `errors.Wrap` puts a text before.
pub data Error : Type 0 where
  rule_error : RuleError → Error
  engine_error : EngineError → Error
  store_error : StoreError → Error
  validation_error : (field value reason : String) → Error
  deadline_exceeded : Error
  num_error : (fn input : String) → NumReason → Error
  message : String → Error
  wrapped : Error → String → Error

abbrev pub is_no_match : Error → Bool
is_no_match (rule_error RuleError.no_match) = true
is_no_match _ = false

abbrev pub is_ruleset_not_found : Error → Bool
is_ruleset_not_found (engine_error EngineError.ruleset_not_found) = true
is_ruleset_not_found _ = false

pub data Result {ℓ} (A : Type ℓ) : Type ℓ where
  ok : A → Result A
  err : Error → Result A
  panic : Result A

infixl 5 ◌>>=◌ ◌>>◌
abbrev pub ◌>>=◌ {ℓ κ} : {A : Type ℓ} {B : Type κ} → Result A → (A → Result B) → Result B
panic >>= next = panic
err e >>= next = err e
ok a >>= next = next a

abbrev pub ◌>>◌ {ℓ} : {B : Type ℓ} → Result (Unit {0}) → Result B → Result B
m >> k = m >>= λ _. k

module _ {ℓ κ} {A : Type ℓ} {B : Type κ} where
  -- What a successful chain says of its parts.
  pub >>=-eq-ok :
      (m : Result A) (next : A → Result B) {out : B}
      → (m >>= next) ≡ ok out
      → (a : A) × (m ≡ ok a) × (next a ≡ ok out)
  >>=-eq-ok panic next returned = cc
  >>=-eq-ok (err e) next returned = cc
  >>=-eq-ok (ok a) next returned = (a, refl, returned)

pub >>=-regroup {ℓ κ κ'} :
    {A : Type ℓ} {B : Type κ} {C : Type κ'} (m : Result A) (f : A → Result C) (g : A → Result B)
    (h : B → Result C)
    → ((a : A) → f a ≡ (g a >>= h))
    → (m >>= f) ≡ (m >>= g >>= h)
>>=-regroup (ok a) f g h e = e a
>>=-regroup (err x) f g h e = refl
>>=-regroup panic f g h e = refl

-- No panic, and `P` of the value if there is one.
abbrev pub Ensures {ℓ} : {A : Type ℓ} → (A → Type 0) → Result A → Type 0
Ensures P (ok a) = P a
Ensures P (err e) = Unit
Ensures P panic = ⊥

pub Ensures->>= {ℓ κ} :
    {A : Type ℓ} {B : Type κ} (P : A → Type 0) (Q : B → Type 0) (m : Result A) (f : A → Result B)
    → Ensures P m
    → ((a : A) → P a → Ensures Q (f a))
    → Ensures Q (m >>= f)
Ensures->>= P Q (ok a) f h k = k a h
Ensures->>= P Q (err e) f h k = tt
Ensures->>= P Q panic f h k = absurd h

pub Ensures-if {ℓ} :
    {A : Type ℓ} (P : A → Type 0) (b : Bool) (x y : Result A)
    → (b ≡ true → Ensures P x)
    → (b ≡ false → Ensures P y)
    → Ensures P (if b then x else y)
Ensures-if P true x y h k = h refl
Ensures-if P false x y h k = k refl
