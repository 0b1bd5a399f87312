-- ===== src/Paths/Endings.antt =====
-- How a joined path ends: a last empty element, and a longer last part.
use Prim.Native.String
use mathlib.Core.List.{reverse}
use text.Mathlib.TextLemmas as L
use regula.Prelude.{
  String, Bool, true, false, List, [], ◌∷◌, ◌++◌, ◌≡◌, ◌≢◌, refl, sym, ap, subst, ◌∙◌, inl, inr,
  ◌==◌, eq_iff, Bool-cases, All,
}
use regula.Paths.{split, render, is_rooted, clean_part, clean_parts, finish, clean, path_join}
use regula.Paths.Joining.{render-all_parts, all_parts-cons}
use regula.Paths.Parts.{
  IsOrdinary, all_parts, split-append, clean_parts-append, path_join-first, path_join-nil, stack,
}

-- A slash at the end is cleaned away.
is_rooted-append : (s t : String) → s ≢ "" → is_rooted (String.◌++◌ s t) ≡ is_rooted s
unfolding is_rooted
is_rooted-append String.[] t h = absurd (h refl)
is_rooted-append (String.◌∷◌ c s) t h = ap is_rooted (L.cons-append c s t)

clean_parts-slash :
    (rooted : Bool) (l : List String)
    → clean_parts rooted [] (l ++ "" ∷ []) ≡ clean_parts rooted [] l
unfolding clean_parts clean_part
clean_parts-slash rooted l = clean_parts-append rooted [] l ("" ∷ [])

clean-slash : (s : String) → s ≢ "" → clean (String.◌++◌ s "/") ≡ clean s
unfolding clean
clean-slash s h =
    rw (is_rooted-append s "/" h, split-append s "")
      (ap (λ l. finish (is_rooted s) (reverse l)) (clean_parts-slash (is_rooted s) (split s)))

render-slash_last :
    (e : String) (es : List String) → render (e ∷ es ++ "" ∷ []) ≡ String.◌++◌ (render (e ∷ es)) "/"
unfolding render
render-slash_last e [] = refl
render-slash_last e (f ∷ es) =
    ap (λ s. String.◌++◌ e (String.◌∷◌ "/" s)) (render-slash_last f es)
    ∙ ap (String.◌++◌ e) (sym (L.cons-append "/" (render (f ∷ es)) "/"))
    ∙ sym (L.append_assoc e (String.◌∷◌ "/" (render (f ∷ es))) "/")

pub render-not_empty : (e : String) (es : List String) → e ≢ "" → render (e ∷ es) ≢ ""
unfolding render
render-not_empty e [] h = h
render-not_empty String.[] (f ∷ es) h = absurd (h refl)
render-not_empty (String.◌∷◌ c s) (f ∷ es) h =
    λ x. cc (L.cons-append c s (String.◌∷◌ "/" (render (f ∷ es))), x)

-- A last element that is empty changes nothing.
path_join-slash :
    (e : String) (es : List String) → e ≢ "" → path_join (e ∷ es ++ "" ∷ []) ≡ path_join (e ∷ es)
path_join-slash e es h =
    path_join-first e (es ++ "" ∷ []) h
    ∙ ap clean (render-slash_last e es)
    ∙ clean-slash (render (e ∷ es)) (render-not_empty e es h)
    ∙ sym (path_join-first e es h)

path_join-skip : (es : List String) → path_join ("" ∷ es) ≡ path_join es
unfolding path_join
path_join-skip es = refl

pub path_join-slash_last :
    (ns e : String) (es : List String)
    → e ≢ ""
    → path_join (ns ∷ e ∷ es ++ "" ∷ []) ≡ path_join (ns ∷ e ∷ es)
path_join-slash_last ns e es h = elim (Bool-cases (ns == "")) [
  | inl b ↦
      subst (λ n. path_join (n ∷ e ∷ es ++ "" ∷ []) ≡ path_join (n ∷ e ∷ es))
        (sym ((eq_iff ns "").0 b))
        (path_join-skip (e ∷ es ++ "" ∷ [])
          ∙ path_join-slash e es h
          ∙ sym (path_join-skip (e ∷ es)))
  | inr b ↦ path_join-slash ns (e ∷ es) (λ same. cc (b, (eq_iff ns "").1 same))
]

finish-relative :
    (l : List String) (p : String) (ps : List String)
    → l ≡ p ∷ ps
    → finish (is_rooted "") (stack "" ++ l) ≡ render l
unfolding finish split is_rooted clean_parts clean_part
finish-relative l p ps h =
    subst (λ k. finish (is_rooted "") (stack "" ++ k) ≡ render k) (sym h) refl

-- Ordinary elements are joined as they are.
pub path_join-render :
    (e : String) (es : List String)
    → e ≢ ""
    → is_rooted e ≡ false
    → All IsOrdinary (all_parts (e ∷ es))
    → path_join (e ∷ es) ≡ render (e ∷ es)
path_join-render e es h r os =
    let (p, ps, parts) = all_parts-cons e es in
    sym (path_join-skip (e ∷ es))
    ∙ path_join-nil e es h r os
    ∙ finish-relative _ p ps parts
    ∙ render-all_parts e es

-- What is added to the last part is added to the path.
render-longer :
    (l : List String) (v t : String)
    → render (l ++ String.◌++◌ v t ∷ []) ≡ String.◌++◌ (render (l ++ v ∷ [])) t
unfolding render
render-longer [] v t = refl
render-longer (a ∷ []) v t =
    ap (String.◌++◌ a) (sym (L.cons-append "/" v t)) ∙ sym (L.append_assoc a (String.◌∷◌ "/" v) t)
render-longer (a ∷ (b ∷ l)) v t =
    ap (λ s. String.◌++◌ a (String.◌∷◌ "/" s)) (render-longer (b ∷ l) v t)
    ∙ ap (String.◌++◌ a) (sym (L.cons-append "/" (render (b ∷ l ++ v ∷ [])) t))
    ∙ sym (L.append_assoc a (String.◌∷◌ "/" (render (b ∷ l ++ v ∷ []))) t)

pub finish-longer :
    (rooted : Bool) (l : List String) (v t : String)
    → finish rooted (l ++ String.◌++◌ v t ∷ []) ≡ String.◌++◌ (finish rooted (l ++ v ∷ [])) t
unfolding finish
finish-longer true l v t =
    ap (String.◌∷◌ "/") (render-longer l v t) ∙ sym (L.cons-append "/" (render (l ++ v ∷ [])) t)
finish-longer false [] v t = render-longer [] v t
finish-longer false (a ∷ l) v t = render-longer (a ∷ l) v t
