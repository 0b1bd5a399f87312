-- ===== src/Prelude/Lists.antt =====
-- Lists over the native numbers, predicates on lists, and Go's maps as association lists.
use Prim.Native.Nat.{ℕ, suc}
use Prim.Native.String.{String}
use mathlib.Core.Path.{◌≡◌, refl}
use mathlib.Core.Logic.{◌⊎◌, inl, inr}
use mathlib.Core.Option.{Option, none, some}
use mathlib.Core.List.{List, [], ◌∷◌, ◌++◌}
use native.Mathlib.Omega.{arith}
use text.Mathlib.Text.{◌==◌}
use text.Mathlib.TextEquality.{eq_iff}
use regula.Prelude.Tests.{if◌then◌else◌}

module _ {ℓ} {A : Type ℓ} where
  abbrev pub length : List A → ℕ
  length [] = 0
  length (_ ∷ xs) = suc (length xs)

  -- The last element, `l[len(l)-1]`; `none` for an empty list.
  abbrev pub last? : List A → Option A
  last? [] = none
  last? (x ∷ []) = some x
  last? (x ∷ (y ∷ ys)) = last? (y ∷ ys)

  pub last?-append : (xs : List A) (x : A) → last? (xs ++ x ∷ []) ≡ some x
  last?-append [] x = refl
  last?-append (y ∷ []) x = refl
  last?-append (y ∷ (z ∷ zs)) x = last?-append (z ∷ zs) x

module _ {ℓ κ} {A : Type ℓ} (P : A → Type κ) where
  -- Every element satisfies `P`.
  abbrev pub All : List A → Type κ
  All [] = Unit
  All (x ∷ xs) = P x × All xs

  pub All-intro : ((x : A) → P x) → (xs : List A) → All xs
  All-intro f [] = tt
  All-intro f (x ∷ xs) = (f x, All-intro f xs)

  pub All-append : (xs ys : List A) → All xs → All ys → All (xs ++ ys)
  All-append [] ys _ k = k
  All-append (x ∷ xs) ys (p, h) k = (p, All-append xs ys h k)

  pub All-append_left : (xs ys : List A) → All (xs ++ ys) → All xs
  All-append_left [] ys _ = tt
  All-append_left (x ∷ xs) ys (p, h) = (p, All-append_left xs ys h)

  pub All-append_right : (xs ys : List A) → All (xs ++ ys) → All ys
  All-append_right [] ys h = h
  All-append_right (x ∷ xs) ys (p, h) = All-append_right xs ys h

module _ {ℓ} {A : Type ℓ} (P : A → Type 0) where
  -- Some element satisfies `P`, with its place kept.
  abbrev pub Any : List A → Type 0
  Any [] = ⊥
  Any (x ∷ xs) = P x ⊎ Any xs

  pub Any-append_left : (xs ys : List A) → Any xs → Any (xs ++ ys)
  Any-append_left (x ∷ xs) ys (inl p) = inl p
  Any-append_left (x ∷ xs) ys (inr a) = inr (Any-append_left xs ys a)
  Any-append_left [] ys a = absurd a

  pub Any-append_right : (xs ys : List A) → Any ys → Any (xs ++ ys)
  Any-append_right [] ys a = a
  Any-append_right (x ∷ xs) ys a = inr (Any-append_right xs ys a)

  pub Any-append_cases : (xs ys : List A) → Any (xs ++ ys) → Any xs ⊎ Any ys
  Any-append_cases [] ys a = inr a
  Any-append_cases (x ∷ xs) ys (inl p) = inl (inl p)
  Any-append_cases (x ∷ xs) ys (inr a) = elim (Any-append_cases xs ys a) [
    | inl b ↦ inl (inr b)
    | inr b ↦ inr b
  ]

module _ {ℓ κ κ' κ''} {A : Type ℓ} {P : A → Type κ} {Q : A → Type κ'} {R : A → Type κ''} where
  pub All-map₂ : ((x : A) → P x → Q x → R x) → (xs : List A) → All P xs → All Q xs → All R xs
  All-map₂ f [] _ _ = tt
  All-map₂ f (x ∷ xs) (p, ps) (q, qs) = (f x p q, All-map₂ f xs ps qs)

module _ {ℓ κ κ'} {A : Type ℓ} {P : A → Type κ} {Q : A → Type κ'} where
  pub All-map : ((x : A) → P x → Q x) → (xs : List A) → All P xs → All Q xs
  All-map f [] _ = tt
  All-map f (x ∷ xs) (p, ps) = (f x p, All-map f xs ps)

module _ {ℓ} {V : Type ℓ} where
  -- `m[key]`, with `ok` false as `none`.
  unfoldable pub lookup : String → List (String × V) → Option V
  lookup key ((other, x) ∷ rest) = if other == key then some x else lookup key rest
  lookup _ [] = none

  -- `m[key] = x`.
  unfoldable pub insert : String → V → List (String × V) → List (String × V)
  insert key x ((other, y) ∷ rest) =
      if other == key then (key, x) ∷ rest else (other, y) ∷ insert key x rest
  insert key x [] = (key, x) ∷ []

  pub lookup-cons :
      (key other : String) (x : V) (rest : List (String × V))
      → lookup key ((other, x) ∷ rest) ≡ (if other == key then some x else lookup key rest)
  unfolding lookup
  lookup-cons key other x rest = refl

  pub lookup-insert :
      (set asked : String) (x : V) (held : List (String × V))
      → lookup asked (insert set x held) ≡ (if set == asked then some x else lookup asked held)
  unfolding lookup insert
  lookup-insert set asked x ((other, y) ∷ rest) = ground (
    arith,
    lookup-insert set asked x rest,
    eq_iff set asked,
    eq_iff other set,
    eq_iff other asked,
  )
  lookup-insert set asked x [] = refl

  -- `for k := range m { keys = append(keys, k) }`.
  abbrev pub keys : List (String × V) → List String
  keys [] = []
  keys ((k, _) ∷ m) = k ∷ keys m
