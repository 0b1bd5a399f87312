-- ===== src/Paths/Joining.antt =====
-- Joined paths that are equal have the same parts.
use Prim.Native.String
use text.Mathlib.TextLemmas as L
use regula.Prelude.{String, Bool, true, false, List, [], ◌∷◌, ◌++◌, ◌≡◌, ◌≢◌, sym, ap, ◌∙◌, All}
use regula.Paths.{split, render, is_rooted, finish, path_join}
use regula.Paths.Parts.{
  IsOrdinary, all_parts, split-cons, split-render, render-split, stack, path_join-ordinary,
}

-- The text before the last parts.
abbrev base : List String → String
base [] = ""
base (a ∷ l) = String.◌++◌ a (String.◌∷◌ "/" (base l))

render-append :
    (l : List String) (p : String) (ps : List String)
    → render (l ++ p ∷ ps) ≡ String.◌++◌ (base l) (render (p ∷ ps))
unfolding render
render-append [] p ps = sym (L.nil-append (render (p ∷ ps)))
render-append (a ∷ []) p ps =
    ap (λ s. String.◌++◌ a (String.◌∷◌ "/" s)) (render-append [] p ps)
    ∙ ap (String.◌++◌ a) (sym (L.cons-append "/" "" (render (p ∷ ps))))
    ∙ sym (L.append_assoc a (String.◌∷◌ "/" "") (render (p ∷ ps)))
render-append (a ∷ (b ∷ l)) p ps =
    ap (λ s. String.◌++◌ a (String.◌∷◌ "/" s)) (render-append (b ∷ l) p ps)
    ∙ ap (String.◌++◌ a) (sym (L.cons-append "/" (base (b ∷ l)) (render (p ∷ ps))))
    ∙ sym (L.append_assoc a (String.◌∷◌ "/" (base (b ∷ l))) (render (p ∷ ps)))

finish-inj :
    (rooted : Bool) (l : List String) (p q : String) (ps qs : List String)
    → finish rooted (l ++ p ∷ ps) ≡ finish rooted (l ++ q ∷ qs)
    → render (p ∷ ps) ≡ render (q ∷ qs)
unfolding finish
finish-inj rooted l p q ps qs h =
    L.append_cancel_left (base l) _ _
      (sym (render-append l p ps) ∙ open_both rooted l h ∙ render-append l q qs)
  where
    open_both :
        (r : Bool) (k : List String)
        → finish r (k ++ p ∷ ps) ≡ finish r (k ++ q ∷ qs)
        → render (k ++ p ∷ ps) ≡ render (k ++ q ∷ qs)
    open_both true k e = cc
    open_both false [] e = e
    open_both false (a ∷ k) e = e

pub all_parts-cons :
    (e : String) (es : List String)
    → (p : String) × (ps : List String) × (all_parts (e ∷ es) ≡ p ∷ ps)
all_parts-cons e es =
    let (p, ps, h) = split-cons e in (p, ps ++ all_parts es, ap (λ l. l ++ all_parts es) h)

-- The elements' parts are those of what they are joined to.
pub render-all_parts :
    (e : String) (es : List String) → render (all_parts (e ∷ es)) ≡ render (e ∷ es)
render-all_parts e es = ap render (sym (split-render e es)) ∙ render-split (render (e ∷ es))

finish-all_parts :
    (rooted : Bool) (l : List String) (e f : String) (es fs : List String)
    → finish rooted (l ++ all_parts (e ∷ es)) ≡ finish rooted (l ++ all_parts (f ∷ fs))
    → render (all_parts (e ∷ es)) ≡ render (all_parts (f ∷ fs))
finish-all_parts rooted l e f es fs h =
    let (p, ps, a) = all_parts-cons e es in
    let (q, qs, b) = all_parts-cons f fs in
    rw (a, b) (finish-inj rooted l p q ps qs (rw (a, b) at h))

-- Below one first element, ordinary paths that are equal have the same parts.
pub path_join-inj :
    (ns e f : String) (es fs : List String)
    → e ≢ ""
    → is_rooted e ≡ false
    → All IsOrdinary (all_parts (e ∷ es))
    → f ≢ ""
    → is_rooted f ≡ false
    → All IsOrdinary (all_parts (f ∷ fs))
    → path_join (ns ∷ e ∷ es) ≡ path_join (ns ∷ f ∷ fs)
    → all_parts (e ∷ es) ≡ all_parts (f ∷ fs)
path_join-inj ns e f es fs e_first e_rel e_ord f_first f_rel f_ord h =
    let joined =
      sym (path_join-ordinary e es e_first e_rel e_ord ns)
      ∙ h
      ∙ path_join-ordinary f fs f_first f_rel f_ord ns in
    let rendered = finish-all_parts (is_rooted ns) (stack ns) e f es fs joined in
    sym (split-render e es)
    ∙ ap split (sym (render-all_parts e es) ∙ rendered ∙ render-all_parts f fs)
    ∙ split-render f fs
