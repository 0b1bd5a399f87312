-- ===== src/Store/Etcd/Parts.antt =====
-- The parts of the paths that Put accepts.
use Prim.Native.Char.{code}
use regula.Prelude.{
  false, ℕ, String, true, List, [], ◌∷◌, ◌≡◌, ◌≢◌, sym, ap, subst, ◌∙◌, ◌⊎◌, inl, inr, nat_eq, All,
  All-map, Bool-cases, arith, codes,
}
use regula.Paths.{is_rooted, split, render}
use regula.Paths.Parts.{IsOrdinary, render-split, split-cons}
use regula.Store.Names.Format.{IsAlnum, StartsAlnum, IsSeparated}
use regula.Store.Names.Validation.{IsPath, IsPathSeparator}

-- One ordinary part of a path, as a KSUID is: 27 letters and digits.
abbrev pub IsPart : String → Type 0
IsPart v = IsOrdinary v × (split v ≡ v ∷ [])

abbrev BeginsAlnum : String → Type 0
BeginsAlnum p = StartsAlnum (codes p)

abbrev rest_of : List String → List String
rest_of [] = []
rest_of (p ∷ ps) = ps

BeginsAlnum-IsOrdinary : (p : String) → BeginsAlnum p → IsOrdinary p
BeginsAlnum-IsOrdinary String.[] h = absurd h
BeginsAlnum-IsOrdinary (String.◌∷◌ c s) h =
    (λ e. cc, λ e. dot (ap codes e) h, λ e. dot (ap codes e) h)
  where
    dot : {l : List ℕ} {k : ℕ} {m : List ℕ} → k ∷ l ≡ b'.' ∷ m → IsAlnum k → ⊥
    dot e a = ground arith

-- Where separators are followed by letters and digits, each part after the first begins with one.
parts_alnum :
    (t : String)
    → IsSeparated IsPathSeparator (codes t)
    → All BeginsAlnum (rest_of (split t)) × (BeginsAlnum t → All BeginsAlnum (split t))
unfolding split
parts_alnum String.[] h = (tt, λ a. absurd a)
parts_alnum (String.◌∷◌ c s) (here, h) = elim (Bool-cases (nat_eq (code c) b'/')) [
  | inl e ↦
      let starts : BeginsAlnum s = slash_starts e here in
      rw e ((parts_alnum s h).1 starts, λ a. absurd (not_slash e a))
  | inr e ↦
      let (p, ps, same) = split-cons s in
      let rest : All BeginsAlnum ps = rw same at (parts_alnum s h).0 in
      rw (e, same) (rest, λ a. (a, rest))
]
  where
    slash_starts :
        nat_eq (code c) b'/' ≡ true
        → IsAlnum (code c) ⊎ (IsPathSeparator (code c) × BeginsAlnum s)
        → BeginsAlnum s
    slash_starts e (inl a) = ground arith
    slash_starts e (inr (_, b)) = b

    not_slash : nat_eq (code c) b'/' ≡ true → IsAlnum (code c) → ⊥
    not_slash e a = ground arith

pub IsPath-IsOrdinary : (p : String) → IsPath p → All IsOrdinary (split p)
IsPath-IsOrdinary String.[] h = absurd h
IsPath-IsOrdinary (String.◌∷◌ c s) (lower, h) =
    All-map BeginsAlnum-IsOrdinary (split (String.◌∷◌ c s))
      ((parts_alnum (String.◌∷◌ c s) (inl (inl lower), h)).1 (inl lower))

pub IsPath-not_empty : (p : String) → IsPath p → p ≢ ""
IsPath-not_empty p h e = subst IsPath e h

pub split-inj : (p q : String) → split p ≡ split q → p ≡ q
split-inj p q e = sym (render-split p) ∙ ap render e ∙ render-split q

pub IsPath-relative : (p : String) → IsPath p → is_rooted p ≡ false
unfolding is_rooted
IsPath-relative String.[] h = absurd h
IsPath-relative (String.◌∷◌ c s) (lower, h) = ground arith
