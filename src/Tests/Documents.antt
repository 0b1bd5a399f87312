-- ===== src/Tests/Documents.antt =====
-- Documents and names: a codec written out, and the theorems about UnmarshalJSON and the validation
-- of names at sample data.
use Prim.Native.String
use regula.Prelude.{String, true, false, ◌==◌, if◌then◌else◌, ◌≡◌, ◌≢◌, refl, ◌⊎◌, inl, inr}
use regula.Outcome.{ok, err, panic, message}
use regula.Json.{
  Json, null, boolean, number, text, array, object, Items, no_items, item, Members, no_members,
  member, is_field,
}
use regula.Rule.Json.RoundTrip.{FindsKind}
use regula.Rule.Document.{unmarshal_rule}
use regula.Rule.Document.Missing.{unmarshal_rule-panic}
use regula.Ruleset.Coherent.{IsCoherent}
use regula.Ruleset.Json.{ruleset_json, unmarshal_ruleset}
use regula.Ruleset.Json.Decoding.{
  IsSupported, IsBuilt, ruleset_json-roundtrip, unmarshal_ruleset-IsCoherent,
}
use regula.Store.{new_signature}
use regula.Store.Matching.{IsInvalid}
use regula.Store.Names.{validate_ruleset}
use regula.Store.Names.Validation.{IsAccepted, validate_ruleset_decides}
use regula.Store.Documents.Decoding.{IsPortable}
use regula.Store.Etcd.{Codec}
use regula.Store.Etcd.Shelf.{IsCodec}
use regula.Tests.Samples.{sample, paris_rule, adult_rule}
use regula.Tests.Rulesets.{sample-IsCoherent}

-- The text of a first member with the key that is looked for.
abbrev pub first_text : Json → String → String
first_text (object (member key (text s) ms)) path = if key == path then s else ""
first_text _ path = ""

pub first_text-FindsKind : FindsKind first_text
first_text-FindsKind kind ms = refl

-- A plain printer, which escapes nothing.
abbrev mutual
  pub show : Json → String
  show null = "null"
  show (boolean true) = "true"
  show (boolean false) = "false"
  show (number n) = String.◌∷◌ "0" n
  show (text s) = String.◌∷◌ "'" s
  show (array is) = String.◌∷◌ "[" (show_items is)
  show (object ms) = String.◌∷◌ "{" (show_members ms)

  pub show_items : Items → String
  show_items no_items = "]"
  show_items (item j is) = String.◌++◌ (show j) (String.◌∷◌ "," (show_items is))

  pub show_members : Members → String
  show_members no_members = "}"
  show_members (member key j ms) =
      String.◌++◌ key (String.◌∷◌ ":" (String.◌++◌ (show j) (String.◌∷◌ "," (show_members ms))))

show_not_empty : (j : Json) → show j ≢ ""
show_not_empty null e = cc
show_not_empty (boolean true) e = cc
show_not_empty (boolean false) e = cc
show_not_empty (number n) e = cc
show_not_empty (text s) e = cc
show_not_empty (array is) e = cc
show_not_empty (object ms) e = cc

abbrev pub plain : Codec
plain = record {
  print = show;
  parse = λ s. err (message "unexpected end of JSON input");
  md5 = λ s. String.◌∷◌ "#" s;
  get_str = first_text;
}

pub plain-IsCodec : IsCodec plain
plain-IsCodec = record {
  printed = show_not_empty;
  digest = λ s e. cc;
  finds = first_text-FindsKind;
}

paris_rule-IsBuilt : IsBuilt paris_rule
paris_rule-IsBuilt = record {
  expr_kinded = (refl, (refl, (refl, tt)));
  result_kind = refl;
  result_type = λ e. cc;
}

adult_rule-IsBuilt : IsBuilt adult_rule
adult_rule-IsBuilt = record {
  expr_kinded = (refl, (refl, (refl, tt)));
  result_kind = refl;
  result_type = λ e. cc;
}

pub sample-IsPortable : IsPortable sample
sample-IsPortable = record {
  coherent = sample-IsCoherent;
  supported = inl refl;
  built = (paris_rule-IsBuilt, (adult_rule-IsBuilt, tt));
}

ruleset_json-roundtrip_example : unmarshal_ruleset first_text (ruleset_json sample) ≡ ok sample
ruleset_json-roundtrip_example =
    ruleset_json-roundtrip first_text sample first_text-FindsKind sample-IsCoherent (inl refl)
      (paris_rule-IsBuilt, (adult_rule-IsBuilt, tt))

decoded_sample : unmarshal_ruleset first_text (ruleset_json sample) ≡ ok sample
decoded_sample =
    ruleset_json-roundtrip first_text sample first_text-FindsKind sample-IsCoherent (inl refl)
      (paris_rule-IsBuilt, (adult_rule-IsBuilt, tt))

unmarshal_ruleset-IsCoherent_example : IsCoherent sample × IsSupported sample.type
unmarshal_ruleset-IsCoherent_example =
    unmarshal_ruleset-IsCoherent first_text (ruleset_json sample) sample decoded_sample

other_field : is_field "Result" "expr" ≡ false
unfolding is_field
other_field = refl

unmarshal_rule-panic_example :
    unmarshal_rule first_text (object (member "expr" null no_members)) ≡ panic
unmarshal_rule-panic_example =
    unmarshal_rule-panic first_text (member "expr" null no_members) (other_field, tt)

accepted_sample : validate_ruleset "europe/visitors" sample ≡ ok (new_signature sample)
unfolding validate_ruleset regula.Rule.Walk.rule_params
accepted_sample = refl

validate_ruleset_decides_example :
    (IsAccepted "europe/visitors" sample
      × (validate_ruleset "europe/visitors" sample ≡ ok (new_signature sample)))
    ⊎ ((¬ IsAccepted "europe/visitors" sample)
        × IsInvalid (validate_ruleset "europe/visitors" sample))
validate_ruleset_decides_example = validate_ruleset_decides "europe/visitors" sample

pub sample-IsAccepted : IsAccepted "europe/visitors" sample
sample-IsAccepted = elim (validate_ruleset_decides "europe/visitors" sample) [
  | inl (a, _) ↦ a
  | inr (_, (f, c, r, e)) ↦ absurd (cc (accepted_sample, e))
]
