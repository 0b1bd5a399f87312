-- ===== src/Paths/Parts.antt =====
-- Paths that are joined of parts without slashes and dots.
use Prim.Native.Char.{Char, code}
use Prim.Native.String
use mathlib.Core.List.{reverse, reverse-cons}
use text.Mathlib.TextLemmas as L
use text.Mathlib.TextEquality.{Char-path}
use regula.Prelude.{
  String, Bool, false, List, [], ◌∷◌, ◌++◌, append_assoc, append-nil, ◌≡◌, ◌≢◌, refl, sym, ap,
  subst, ◌∙◌, inl, inr, nat_eq, ◌==◌, eq_iff, Bool-cases, All, arith,
}
use regula.Paths.{
  cons_head, split, render, is_rooted, clean_part, clean_parts, finish, clean, path_join,
}

-- A part that cleaning keeps.
abbrev pub IsOrdinary : String → Type 0
IsOrdinary p = (p ≢ "") × (p ≢ ".") × (p ≢ "..")

-- The parts of all the elements.
abbrev pub all_parts : List String → List String
all_parts [] = []
all_parts (e ∷ es) = split e ++ all_parts es

pub split-cons : (s : String) → (p : String) × (ps : List String) × (split s ≡ p ∷ ps)
unfolding split
split-cons String.[] = (String.[], [], refl)
split-cons (String.◌∷◌ c s) = elim (Bool-cases (nat_eq (code c) b'/')) [
  | inl e ↦ (String.[], split s, rw e refl)
  | inr e ↦ let (p, ps, h) = split-cons s in (String.◌∷◌ c p, ps, rw (e, h) refl)
]

cons_head-append :
    (c : Char) (s : String) (l : List String)
    → cons_head c (split s ++ l) ≡ cons_head c (split s) ++ l
cons_head-append c s l = let (p, ps, h) = split-cons s in rw h refl

pub split-append : (s t : String) → split (String.◌++◌ s (String.◌∷◌ "/" t)) ≡ split s ++ split t
unfolding split
split-append String.[] t = ap split (L.nil-append (String.◌∷◌ "/" t))
split-append (String.◌∷◌ c s) t =
    ap split (L.cons-append c s (String.◌∷◌ "/" t)) ∙ (elim (Bool-cases (nat_eq (code c) b'/')) [
      | inl e ↦ rw e (ap (λ l. String.[] ∷ l) (split-append s t))
      | inr e ↦ rw e (ap (cons_head c) (split-append s t) ∙ cons_head-append c s (split t))
    ])

pub split-render : (e : String) (es : List String) → split (render (e ∷ es)) ≡ all_parts (e ∷ es)
unfolding render
split-render e [] = sym (append-nil (split e))
split-render e (f ∷ es) =
    split-append e (render (f ∷ es)) ∙ ap (λ l. split e ++ l) (split-render f es)

render-slash :
    (p : String) (ps : List String) → render (String.[] ∷ p ∷ ps) ≡ String.◌∷◌ "/" (render (p ∷ ps))
unfolding render
render-slash p ps = L.nil-append _

render-cons_head :
    (c : Char) (p : String) (ps : List String)
    → render (cons_head c (p ∷ ps)) ≡ String.◌∷◌ c (render (p ∷ ps))
unfolding render
render-cons_head c p [] = refl
render-cons_head c p (q ∷ ps) = L.cons-append c p _

-- The parts give the text back.
pub render-split : (s : String) → render (split s) ≡ s
unfolding split
render-split String.[] = unfold render in refl
render-split (String.◌∷◌ c s) =
    let (p, ps, h) = split-cons s in
    let ih : render (p ∷ ps) ≡ s = rw h at (render-split s) in
    elim (Bool-cases (nat_eq (code c) b'/')) [
      | inl e ↦
          let slash : c ≡ "/" = Char-path c "/" (ground arith) in
          rw (e, h)
            (render-slash p ps ∙ ap (String.◌∷◌ "/") ih ∙ ap (λ d. String.◌∷◌ d s) (sym slash))
      | inr e ↦ rw (e, h) (render-cons_head c p ps ∙ ap (String.◌∷◌ c) ih)
    ]

pub clean_parts-append :
    (rooted : Bool) (out ps qs : List String)
    → clean_parts rooted out (ps ++ qs) ≡ clean_parts rooted (clean_parts rooted out ps) qs
unfolding clean_parts
clean_parts-append rooted out [] qs = refl
clean_parts-append rooted out (p ∷ ps) qs =
    clean_parts-append rooted (clean_part rooted out p) ps qs

clean_part-ordinary :
    (rooted : Bool) (out : List String) (p : String)
    → IsOrdinary p
    → clean_part rooted out p ≡ p ∷ out
unfolding clean_part
clean_part-ordinary rooted out p (a, b, c) =
    ground (arith, eq_iff p "", eq_iff p ".", eq_iff p "..")

pub clean_parts-ordinary :
    (rooted : Bool) (out ps : List String)
    → All IsOrdinary ps
    → reverse (clean_parts rooted out ps) ≡ reverse out ++ ps
unfolding clean_parts
clean_parts-ordinary rooted out [] h = sym (append-nil (reverse out))
clean_parts-ordinary rooted out (p ∷ ps) (o, os) =
    ap (λ l. reverse (clean_parts rooted l ps)) (clean_part-ordinary rooted out p o)
    ∙ clean_parts-ordinary rooted (p ∷ out) ps os
    ∙ ap (λ l. l ++ ps) (reverse-cons p out)
    ∙ append_assoc (reverse out) (p ∷ []) ps

pub is_rooted-render :
    (e : String) (es : List String) → e ≢ "" → is_rooted (render (e ∷ es)) ≡ is_rooted e
unfolding is_rooted render
is_rooted-render e [] h = refl
is_rooted-render String.[] (f ∷ es) h = absurd (h refl)
is_rooted-render (String.◌∷◌ c s) (f ∷ es) h = ap is_rooted (L.cons-append c s _)

-- What a first element becomes when it is cleaned, in order.
abbrev pub stack : String → List String
stack ns = reverse (clean_parts (is_rooted ns) [] (split ns))

clean-ordinary :
    (rooted : Bool) (ns : String) (qs : List String)
    → is_rooted ns ≡ rooted
    → All IsOrdinary qs
    → finish rooted (reverse (clean_parts rooted [] (split ns ++ qs)))
      ≡ finish rooted (stack ns ++ qs)
clean-ordinary rooted ns qs h os = rw h (
    ap (λ l. finish rooted (reverse l)) (clean_parts-append rooted [] (split ns) qs)
    ∙ ap (finish rooted) (clean_parts-ordinary rooted (clean_parts rooted [] (split ns)) qs os))

pub path_join-first :
    (e : String) (es : List String) → e ≢ "" → path_join (e ∷ es) ≡ clean (render (e ∷ es))
unfolding path_join
path_join-first e es h = elim (Bool-cases (e == "")) [
  | inl b ↦ absurd (h ((eq_iff e "").0 b))
  | inr b ↦ rw b refl
]

module _ (e : String) (es : List String) (first : e ≢ "") (relative : is_rooted e ≡ false)
    (os : All IsOrdinary (all_parts (e ∷ es))) where
  pub path_join-nil :
      path_join ("" ∷ e ∷ es) ≡ finish (is_rooted "") (stack "" ++ all_parts (e ∷ es))
  unfolding path_join is_rooted split clean_parts clean_part
  path_join-nil =
      path_join-first e es first
      ∙ rw
          (
            is_rooted-render e es first ∙ relative,
            split-render e es,
            clean_parts-ordinary false [] (all_parts (e ∷ es)) os,
          )
          refl

  path_join-cons :
      (ns : String)
      → ns ≢ ""
      → path_join (ns ∷ e ∷ es) ≡ finish (is_rooted ns) (stack ns ++ all_parts (e ∷ es))
  unfolding clean
  path_join-cons ns h =
      path_join-first ns (e ∷ es) h
      ∙ rw (is_rooted-render ns (e ∷ es) h, split-render ns (e ∷ es))
          (clean-ordinary (is_rooted ns) ns (all_parts (e ∷ es)) refl os)

  -- An ordinary path below any first element.
  pub path_join-ordinary :
      (ns : String)
      → path_join (ns ∷ e ∷ es) ≡ finish (is_rooted ns) (stack ns ++ all_parts (e ∷ es))
  path_join-ordinary ns = elim (Bool-cases (ns == "")) [
    | inl b ↦
        subst (λ n. path_join (n ∷ e ∷ es) ≡ finish (is_rooted n) (stack n ++ all_parts (e ∷ es)))
          (sym ((eq_iff ns "").0 b)) path_join-nil
    | inr b ↦ path_join-cons ns (λ same. cc (b, (eq_iff ns "").1 same))
  ]
