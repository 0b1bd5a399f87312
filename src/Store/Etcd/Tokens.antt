-- ===== src/Store/Etcd/Tokens.antt =====
-- The key that a continue token of store/etcd/rulesets.go leads to.
use Prim.Native.Char.{Char, code}
use Prim.Native.String
use text.Mathlib.TextLemmas as L
use regula.Prelude.{
  String, false, List, [], ◌∷◌, ◌++◌, append_assoc, append-nil, nat_eq, ◌≡◌, ◌≢◌, refl, sym, ap,
  subst, ◌∙◌, inl, inr, Bool-cases, All, All-append,
}
use regula.Paths.{split, cons_head, render, path_join, is_rooted, finish}
use regula.Paths.Parts.{IsOrdinary, all_parts, split-cons, split-render, path_join-ordinary, stack}
use regula.Paths.Endings.{render-not_empty, path_join-slash_last, path_join-render, finish-longer}
use regula.Store.Names.Validation.{IsPath}
use regula.Store.Etcd.{rulesets_path}
use regula.Store.Etcd.Parts.{IsPart, IsPath-IsOrdinary, IsPath-not_empty, IsPath-relative}

-- A part that a character which is no dot and no slash is added to.
abbrev pub next : String → String
next v = String.◌++◌ v "\0"

split-one :
    (c : Char) (s : String)
    → split (String.◌∷◌ c s) ≡ String.◌∷◌ c s ∷ []
    → nat_eq (code c) b'/' ≡ false
unfolding split
split-one c s h = elim (Bool-cases (nat_eq (code c) b'/')) [ inl e ↦ slash (rw e at h) | inr e ↦ e ]
  where
    slash : String.[] ∷ split s ≡ String.◌∷◌ c s ∷ [] → nat_eq (code c) b'/' ≡ false
    slash k = cc

split-tail :
    (c : Char) (s : String) → split (String.◌∷◌ c s) ≡ String.◌∷◌ c s ∷ [] → split s ≡ s ∷ []
unfolding split
split-tail c s h =
    let (p, ps, e) = split-cons s in
    let both : String.◌∷◌ c p ∷ ps ≡ String.◌∷◌ c s ∷ [] = rw (split-one c s h, e) at h in e ∙ cc

next-cons : (c : Char) (s : String) → next (String.◌∷◌ c s) ≡ String.◌∷◌ c (next s)
next-cons c s = L.cons-append c s "\0"

split-next : (v : String) → split v ≡ v ∷ [] → split (next v) ≡ next v ∷ []
unfolding split
split-next String.[] h = refl
split-next (String.◌∷◌ c s) h =
    ap split (next-cons c s)
    ∙ rw (split-one c s h) (ap (cons_head c) (split-next s (split-tail c s h)))
    ∙ ap (λ x. x ∷ []) (sym (next-cons c s))

next-not_empty : (s : String) → next s ≢ ""
next-not_empty String.[] = λ e. cc
next-not_empty (String.◌∷◌ c s) = λ e. cc (next-cons c s, e)

next-not_dot : (s : String) → next s ≢ "."
next-not_dot String.[] = λ e. cc
next-not_dot (String.◌∷◌ c s) = λ e. next-not_empty s (cc (next-cons c s, e))

next-not_dots : (s : String) → next s ≢ ".."
next-not_dots String.[] = λ e. cc
next-not_dots (String.◌∷◌ c s) = λ e. next-not_dot s (cc (next-cons c s, e))

next-IsPart : (v : String) → IsPart v → IsPart (next v)
next-IsPart v (_, one) = ((next-not_empty v, next-not_dot v, next-not_dots v), split-next v one)

-- The path in a token, and the keys of an entry and of what comes after it.
abbrev pub last_path : String → String → String
last_path p v = path_join (p ∷ next v ∷ [])

entry-IsOrdinary : (p v : String) → IsPath p → IsPart v → All IsOrdinary (all_parts (p ∷ v ∷ []))
entry-IsOrdinary p v hp (o, one) =
    All-append IsOrdinary (split p) (split v ++ []) (IsPath-IsOrdinary p hp) (rw one (o, tt))

last_path-render : (p v : String) → IsPath p → IsPart v → last_path p v ≡ render (p ∷ next v ∷ [])
last_path-render p v hp hv =
    path_join-render p (next v ∷ []) (IsPath-not_empty p hp) (IsPath-relative p hp)
      (entry-IsOrdinary p (next v) hp (next-IsPart v hv))

-- The parts of a key below the namespace.
abbrev key_parts_of : String → String → List String
key_parts_of p v = "rulesets" ∷ "entries" ∷ (split p ++ v ∷ [])

key_parts-IsOrdinary : (p v : String) → IsPath p → IsPart v → All IsOrdinary (key_parts_of p v)
key_parts-IsOrdinary p v hp (o, one) = (
  ((λ e. cc), (λ e. cc), (λ e. cc)),
  (
    ((λ e. cc), (λ e. cc), (λ e. cc)),
    All-append IsOrdinary (split p) (v ∷ []) (IsPath-IsOrdinary p hp) (o, tt),
  ),
)

-- A key whose elements have these parts.
key-finish :
    (ns p v : String) (tail : List String)
    → IsPath p
    → IsPart v
    → all_parts tail ≡ split p ++ v ∷ []
    → path_join (ns ∷ "rulesets" ∷ "entries" ∷ tail)
      ≡ finish (is_rooted ns) (stack ns ++ key_parts_of p v)
key-finish ns p v tail hp hv e =
    path_join-ordinary "rulesets" ("entries" ∷ tail) (λ x. cc) relative
      (subst (All IsOrdinary) (sym parts) (key_parts-IsOrdinary p v hp hv)) ns
    ∙ ap (λ l. finish (is_rooted ns) (stack ns ++ l)) parts
  where
    relative : is_rooted "rulesets" ≡ false
    relative = unfold is_rooted in refl

    parts : all_parts ("rulesets" ∷ "entries" ∷ tail) ≡ key_parts_of p v
    parts = unfold split in ap (λ l. "rulesets" ∷ "entries" ∷ l) e

entry_key-finish :
    (ns p v : String)
    → IsPath p
    → IsPart v
    → rulesets_path ns p v ≡ finish (is_rooted ns) (stack ns ++ key_parts_of p v)
unfolding rulesets_path
entry_key-finish ns p v hp hv =
    key-finish ns p v (p ∷ v ∷ []) hp hv (ap (λ l. split p ++ (l ++ [])) hv.1)

resumed_key-finish :
    (ns p v : String)
    → IsPath p
    → IsPart v
    → rulesets_path ns (last_path p v) ""
      ≡ finish (is_rooted ns) (stack ns ++ key_parts_of p (next v))
unfolding rulesets_path
resumed_key-finish ns p v hp hv =
    path_join-slash_last ns "rulesets" ("entries" ∷ last_path p v ∷ []) (λ x. cc)
    ∙ key-finish ns p (next v) (last_path p v ∷ []) hp (next-IsPart v hv) (
        append-nil (split (last_path p v))
        ∙ ap split (last_path-render p v hp hv)
        ∙ split-render p (next v ∷ [])
        ∙ ap (λ l. split p ++ (l ++ [])) (next-IsPart v hv).1)

-- The key that a token leads to is the entry's key with a last character 0, which is the first one
-- after it.
pub resumed_key :
    (ns p v : String)
    → IsPath p
    → IsPart v
    → rulesets_path ns (last_path p v) "" ≡ next (rulesets_path ns p v)
resumed_key ns p v hp hv =
    resumed_key-finish ns p v hp hv
    ∙ ap (finish (is_rooted ns))
        (sym (append_assoc (stack ns) ("rulesets" ∷ "entries" ∷ split p) (next v ∷ [])))
    ∙ finish-longer (is_rooted ns) (stack ns ++ "rulesets" ∷ "entries" ∷ split p) v "\0"
    ∙ ap next (
        ap (finish (is_rooted ns))
          (append_assoc (stack ns) ("rulesets" ∷ "entries" ∷ split p) (v ∷ []))
        ∙ sym (entry_key-finish ns p v hp hv))

pub last_path-not_empty : (p v : String) → IsPath p → IsPart v → last_path p v ≢ ""
last_path-not_empty p v hp hv e =
    render-not_empty p (next v ∷ []) (IsPath-not_empty p hp) (sym (last_path-render p v hp hv) ∙ e)
