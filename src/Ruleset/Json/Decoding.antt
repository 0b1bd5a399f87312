-- ===== src/Ruleset/Json/Decoding.antt =====
-- What UnmarshalJSON of ruleset.go and rule/rule.go accept, and the way back from a document.
use regula.Prelude.{
  String, Bool, true, false, some, List, [], ◌∷◌, ◌≡◌, ◌≢◌, refl, sym, ap, subst, ◌∙◌, ◌⊎◌, inl,
  inr, All, Bool-cases, ◌==◌, eq_iff, if◌then◌else◌, arith, map,
}
use regula.Outcome.{message, ok, err, panic, ◌>>=◌, >>=-eq-ok}
use regula.Json.{Json}
use regula.Rule.Walk.{Rule}
use regula.Rule.Json.RoundTrip.{IsKinded, FindsKind, expr_json-roundtrip}
use regula.Rule.Document.{rule_json, unmarshal_rule}
use regula.Ruleset.{Ruleset, validate}
use regula.Ruleset.Coherent.{IsCoherent, validate_iff}
use regula.Ruleset.Json.{
  rule_items, rules_json, ruleset_json, Fields, is_supported, before_nil, validate_rules_read,
  check_fields, unmarshal_pointers, unmarshal_rules, unmarshal_fields, unmarshal_ruleset,
}

-- A rule as the constructor functions build it, with a result of some type.
pub record IsBuilt (r : Rule) : Type 0 where
  pub expr_kinded : IsKinded r.expr
  pub result_kind : r.result.kind ≡ "value"
  pub result_type : r.result.type ≢ ""

eq_false : (s t : String) → s ≢ t → (s == t) ≡ false
eq_false s t ne = elim (Bool-cases (s == t)) [ inl e ↦ absurd (ne ((eq_iff s t).0 e)) | inr e ↦ e ]

module _ (get_str : Json → String → String) (finds : FindsKind get_str) where
  rule_json-roundtrip : (r : Rule) → IsBuilt r → unmarshal_rule get_str (rule_json r) ≡ ok r
  unfolding unmarshal_rule rule_json
  rule_json-roundtrip r b =
      rw
        (
          eq_false r.result.type "" b.result_type,
          expr_json-roundtrip get_str finds r.expr b.expr_kinded,
        )
        refl

  pointers-roundtrip :
      (rs : List Rule)
      → All IsBuilt rs
      → unmarshal_pointers get_str (rule_items rs) ≡ ok (map some rs)
  unfolding unmarshal_pointers rule_items
  pointers-roundtrip [] h = refl
  pointers-roundtrip (r ∷ rs) (b, bs) = rw (rule_json-roundtrip r b, pointers-roundtrip rs bs) refl

  rules-roundtrip :
      (rs : List Rule) → All IsBuilt rs → unmarshal_rules get_str (rules_json rs) ≡ ok (map some rs)
  unfolding unmarshal_rules rules_json
  rules-roundtrip [] h = refl
  rules-roundtrip (r ∷ rs) h = pointers-roundtrip (r ∷ rs) h

before_nil-some : (rs : List Rule) → before_nil (map some rs) ≡ (rs, false)
unfolding before_nil
before_nil-some [] = refl
before_nil-some (r ∷ rs) = ap (λ p. (r ∷ p.0, p.1)) (before_nil-some rs)

abbrev pub IsSupported : String → Type 0
IsSupported t = (t ≡ "string") ⊎ (t ≡ "bool") ⊎ (t ≡ "int64") ⊎ (t ≡ "float64")

IsSupported-sound : (t : String) → is_supported t ≡ true → IsSupported t
unfolding is_supported
IsSupported-sound t h =
    ground (arith, eq_iff t "string", eq_iff t "bool", eq_iff t "int64", eq_iff t "float64")

IsSupported-complete : (t : String) → IsSupported t → is_supported t ≡ true
unfolding is_supported
IsSupported-complete t h =
    ground (arith, eq_iff t "string", eq_iff t "bool", eq_iff t "int64", eq_iff t "float64")

check_fields-supported :
    (fs : Fields)
    → IsSupported fs.type
    → check_fields fs ≡ validate_rules_read fs.type (before_nil fs.rules)
unfolding check_fields
check_fields-supported fs h = rw (IsSupported-complete fs.type h) refl

check_fields-unsupported :
    (fs : Fields)
    → is_supported fs.type ≡ false
    → check_fields fs ≡ err (message "unsupported ruleset type")
unfolding check_fields
check_fields-unsupported fs h = rw h refl

read_complete :
    (rs : Ruleset) → IsCoherent rs → validate_rules_read rs.type (rs.rules, false) ≡ ok rs
unfolding validate_rules_read
read_complete rs c = ap (λ r. r >>= λ _. ok rs) ((validate_iff rs).1 c)

read_sound :
    (type : String) (p : List Rule × Bool) (rs : Ruleset)
    → validate_rules_read type p ≡ ok rs
    → IsCoherent rs × (rs.type ≡ type)
unfolding validate_rules_read
read_sound type (rules, has_nil) rs h =
    let made : Ruleset = record { rules = rules; type = type } in
    let (u, valid, rest) = >>=-eq-ok (validate made) (λ _. if has_nil then panic else ok made) h in
    let same : made ≡ rs = go has_nil rest in
    (subst IsCoherent same ((validate_iff made).0 valid), ap (λ r. r.type) (sym same))
  where
    go :
        (b : Bool)
        → (if b then panic else ok (record { rules = rules; type = type })) ≡ ok rs
        → (record { rules = rules; type = type }) ≡ rs
    go true e = cc
    go false e = cc

-- A coherent ruleset of one of the four types, whose rules are built by the constructor functions,
-- is decoded from its document as it was.
pub ruleset_json-roundtrip :
    (get_str : Json → String → String) (rs : Ruleset)
    → FindsKind get_str
    → IsCoherent rs
    → IsSupported rs.type
    → All IsBuilt rs.rules
    → unmarshal_ruleset get_str (ruleset_json rs) ≡ ok rs
unfolding unmarshal_ruleset ruleset_json
ruleset_json-roundtrip get_str rs finds c s b = rw (rules-roundtrip get_str finds rs.rules b) (
    check_fields-supported (record { rules = map some rs.rules; type = rs.type }) s
    ∙ ap (validate_rules_read rs.type) (before_nil-some rs.rules)
    ∙ read_complete rs c)

-- Whatever the document, a ruleset that is decoded from it is coherent and of one of the four
-- types.
pub unmarshal_ruleset-IsCoherent :
    (get_str : Json → String → String) (j : Json) (rs : Ruleset)
    → unmarshal_ruleset get_str j ≡ ok rs
    → IsCoherent rs × IsSupported rs.type
unfolding unmarshal_ruleset
unmarshal_ruleset-IsCoherent get_str j rs h =
    let (fs, _, checked) = >>=-eq-ok (unmarshal_fields get_str j) check_fields h in go fs checked
  where
    go : (fs : Fields) → check_fields fs ≡ ok rs → IsCoherent rs × IsSupported rs.type
    go fs e = elim (Bool-cases (is_supported fs.type)) [
      | inl yes_type ↦
          let s = IsSupported-sound fs.type yes_type in
          let (c, same) =
            read_sound fs.type (before_nil fs.rules) rs (sym (check_fields-supported fs s) ∙ e) in
          (c, subst IsSupported (sym same) s)
      | inr no_type ↦ cc (check_fields-unsupported fs no_type, e)
    ]
