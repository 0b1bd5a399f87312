-- ===== src/Store/Documents/Decoding.antt =====
-- The documents of the store are decoded as what they were made of.
use regula.Prelude.{String, some, List, [], ◌∷◌, insert, ◌≡◌, refl, ap, ◌∙◌, All}
use regula.Outcome.{ok, ◌>>=◌}
use regula.Json.{Json, object}
use regula.Rule.Expr.{Param}
use regula.Rule.Json.RoundTrip.{FindsKind}
use regula.Ruleset.{Ruleset, ParamTypes, ruleset_params}
use regula.Ruleset.Coherent.{IsCoherent}
use regula.Ruleset.Json.{ruleset_json}
use regula.Ruleset.Json.Decoding.{IsBuilt, IsSupported, ruleset_json-roundtrip}
use regula.Store.{note_types, new_signature}
use regula.Store.Matching.{pairs, new_signature-pairs}
use regula.Store.Documents.{
  entry_json, types_members, signature_json, note_members, unmarshal_types, unmarshal_signature,
  unmarshal_entry_ruleset, unmarshal_entry,
}

-- A ruleset that its document gives back.
pub record IsPortable (rs : Ruleset) : Type 0 where
  pub coherent : IsCoherent rs
  pub supported : IsSupported rs.type
  pub built : All IsBuilt rs.rules

note_members-pairs :
    (ps : List Param) (m : ParamTypes)
    → note_members m (types_members (pairs ps)) ≡ ok (note_types ps m)
unfolding note_members types_members note_types
note_members-pairs [] m = refl
note_members-pairs (p ∷ ps) m = note_members-pairs ps (insert p.name p.type m)

types-roundtrip :
    (rs : Ruleset)
    → unmarshal_types [] (object (types_members (new_signature rs).param_types))
      ≡ ok (new_signature rs).param_types
unfolding unmarshal_types
types-roundtrip rs =
    ap (λ pt. note_members [] (types_members pt)) (new_signature-pairs rs)
    ∙ (unfold new_signature in note_members-pairs (ruleset_params rs) [])

pub signature_json-roundtrip :
    (rs : Ruleset) → unmarshal_signature (signature_json (new_signature rs)) ≡ ok (new_signature rs)
unfolding unmarshal_signature signature_json
signature_json-roundtrip rs = rw (types-roundtrip rs) refl

module _ (get_str : Json → String → String) (finds : FindsKind get_str) where
  pub pointer-roundtrip :
      (rs : Ruleset)
      → IsPortable rs
      → unmarshal_entry_ruleset get_str (ruleset_json rs) ≡ ok (some rs)
  unfolding unmarshal_entry_ruleset ruleset_json
  pointer-roundtrip rs h =
      ap (λ r. r >>= λ x. ok (some x))
        (ruleset_json-roundtrip get_str rs finds h.coherent h.supported h.built)

  pub entry_json-roundtrip :
      (path version : String) (rs : Ruleset)
      → IsPortable rs
      → unmarshal_entry get_str
          (entry_json (record { path = path; version = version; rule_set = some rs }))
        ≡ ok (record { path = path; version = version; rule_set = some rs })
  unfolding unmarshal_entry entry_json
  entry_json-roundtrip path version rs h = rw (pointer-roundtrip rs h) refl
