-- ===== src/Rule/Document/Missing.antt =====
-- A rule's document without a result: UnmarshalJSON of rule/rule.go.
use regula.Prelude.{String, false, some, ◌≡◌, refl, ap, ◌∙◌, inl, inr, Bool-cases}
use regula.Outcome.{ok, panic, ◌>>=◌}
use regula.Json.{Json, object, Members, no_members, member, is_field}
use regula.Rule.Document.{Tree, zero_tree, tree_member, tree_members, finish_tree, unmarshal_rule}

-- No member is stored in the field of this name.
abbrev pub LacksField : String → Members → Type 0
LacksField name no_members = Unit
LacksField name (member key j ms) = (is_field name key ≡ false) × LacksField name ms

tree_members-LacksField :
    (ms : Members) (t : Tree)
    → LacksField "Result" ms
    → (u : Tree) × (tree_members t ms ≡ ok u) × (u.result ≡ t.result)
unfolding tree_members
tree_members-LacksField no_members t h = (t, refl, refl)
tree_members-LacksField (member key j ms) t (h, hs) = elim (Bool-cases (is_field "Expr" key)) [
  | inl e ↦ rw (tree_member, e) (tree_members-LacksField ms (record t { expr = some j }) hs)
  | inr e ↦ rw (tree_member, e, h) (tree_members-LacksField ms t hs)
]

-- An object that has no member `result`, in any case, makes the decoding of a rule panic.
pub unmarshal_rule-panic :
    (get_str : Json → String → String) (ms : Members)
    → LacksField "Result" ms
    → unmarshal_rule get_str (object ms) ≡ panic
unfolding unmarshal_rule
unmarshal_rule-panic get_str ms h =
    let (u, e, nothing) = tree_members-LacksField ms zero_tree h in
    ap (λ r. r >>= λ t. finish_tree get_str t.expr t.result) e
    ∙ ap (finish_tree get_str u.expr) nothing
