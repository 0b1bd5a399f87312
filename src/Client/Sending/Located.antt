-- ===== src/Client/Sending/Located.antt =====
-- The path of a client's request, and what the server makes of it.
use Prim.Native.String
use text.Mathlib.TextLemmas as L
use text.Mathlib.TextPositions as P
use regula.Prelude.{
  String, false, [], ◌∷◌, ◌==◌, eq_iff, append-nil, trim_prefix, ◌≡◌, ◌≢◌, refl, sym, ap, ◌∙◌, inl,
  inr, Bool-cases, All,
}
use regula.Paths.{split, render, is_rooted, clean_part, clean_parts, finish, clean, path_join}
use regula.Paths.Parts.{
  IsOrdinary, split-cons, split-append, split-render, render-split, is_rooted-render,
  clean_parts-ordinary, path_join-first,
}
use regula.Server.{Request, path_of}
use regula.Client.Sending.{join_path}

-- What the base URL of a server at the root makes of a relative path without dots, and of the path
-- of a listing of everything.
abbrev pub IsRoot : (String → String) → Type 0
IsRoot resolve =
    ((s : String) → All IsOrdinary (split s) → resolve (String.◌++◌ "./" s) ≡ String.◌++◌ "/" s)
    × (resolve "./rulesets/" ≡ "/rulesets/")

-- A path that is served: not empty, and of ordinary parts.
abbrev pub IsServed : String → Type 0
IsServed p = (p ≢ "") × All IsOrdinary (split p)

render-rulesets : (p : String) → render ("rulesets" ∷ split p) ≡ String.◌++◌ "rulesets/" p
unfolding render
render-rulesets p =
    let (q, qs, h) = split-cons p in
    let back : render (q ∷ qs) ≡ p = rw h at (render-split p) in
    rw h (
      ap (λ s. String.◌++◌ "rulesets" (String.◌∷◌ "/" s)) back
      ∙ ap (String.◌++◌ "rulesets")
          (sym (L.cons-append "/" "" p ∙ ap (String.◌∷◌ "/") (L.nil-append p)))
      ∙ sym (L.append_assoc "rulesets" "/" p))

split-rulesets : (p : String) → split (String.◌++◌ "rulesets/" p) ≡ "rulesets" ∷ split p
unfolding split
split-rulesets p =
    ap split (
      L.append_assoc "rulesets" "/" p
      ∙ ap (String.◌++◌ "rulesets") (L.cons-append "/" "" p ∙ ap (String.◌∷◌ "/") (L.nil-append p)))
    ∙ split-append "rulesets" p

joined-rulesets :
    (p : String)
    → All IsOrdinary (split p)
    → path_join ("rulesets/" ∷ p ∷ []) ≡ String.◌++◌ "rulesets/" p
unfolding clean finish is_rooted split clean_parts clean_part
joined-rulesets p os =
    path_join-first "rulesets/" (p ∷ []) (λ e. cc)
    ∙ rw
        (
          is_rooted-render "rulesets/" (p ∷ []) (λ e. cc),
          split-render "rulesets/" (p ∷ []),
          append-nil (split p),
        )
        (ap (finish false) (clean_parts-ordinary false ("rulesets" ∷ []) (split p) os)
          ∙ render-rulesets p)

-- The path of a request for a served path.
pub join_path-served :
    (p : String) → IsServed p → join_path p ≡ String.◌++◌ "./" (String.◌++◌ "rulesets/" p)
unfolding join_path
join_path-served p (ne, os) =
    rw (joined-rulesets p os)
      (elim (Bool-cases (String.◌++◌ "./" (String.◌++◌ "rulesets/" p) == "./rulesets")) [
        | inl e ↦
            absurd (not_all (L.append_cancel_left "./" _ "rulesets" ((eq_iff _ "./rulesets").0 e)))
        | inr e ↦ rw e refl
      ])
  where
    not_all : String.◌++◌ "rulesets/" p ≡ "rulesets" → ⊥
    not_all e =
        let (q, qs, h) = split-cons p in
        let two : "rulesets" ∷ (q ∷ qs) ≡ "rulesets" ∷ [] =
          ap (λ l. "rulesets" ∷ l) (sym h)
          ∙ sym (split-rulesets p)
          ∙ ap split e
          ∙ (unfold split in refl) in
        cc

-- TrimPrefix of what has the prefix.
trim_prefix-append : (s t : String) → trim_prefix (String.◌++◌ s t) s ≡ t
trim_prefix-append s t =
    rw (trim_prefix, P.starts_with-append s t, P.len-append s t) (P.slice-append_right s t)

-- The server reads the client's path from the request, at a base URL that is the root.
pub path_of-sent :
    (resolve : String → String) (p : String) (r : Request)
    → IsRoot resolve
    → IsServed p
    → r.path ≡ resolve (join_path p)
    → path_of r ≡ p
unfolding path_of
path_of-sent resolve p r root h e =
    let sent : r.path ≡ String.◌++◌ "/rulesets" (String.◌++◌ "/" p) =
      e
      ∙ ap resolve (join_path-served p h)
      ∙ root.0 (String.◌++◌ "rulesets/" p)
          (rw (split-rulesets p) (((λ x. cc), (λ x. cc), (λ x. cc)), h.1))
      ∙ sym (L.append_assoc "/" "rulesets/" p)
      ∙ L.append_assoc "/rulesets" "/" p in
    ap (λ s. trim_prefix (trim_prefix s "/rulesets") "/") sent
    ∙ ap (λ s. trim_prefix s "/") (trim_prefix-append "/rulesets" (String.◌++◌ "/" p))
    ∙ trim_prefix-append "/" p

everything : join_path "" ≡ "./rulesets/"
unfolding join_path path_join
everything = refl

-- A listing of everything has the empty path.
pub path_of-everything :
    (resolve : String → String) (p : String) (r : Request)
    → IsRoot resolve
    → p ≡ ""
    → r.path ≡ resolve (join_path p)
    → path_of r ≡ p
unfolding path_of
path_of-everything resolve p r root empty e =
    let sent : r.path ≡ "/rulesets/" =
      e ∙ ap (λ s. resolve (join_path s)) empty ∙ ap resolve everything ∙ root.1 in
    ap (λ s. trim_prefix (trim_prefix s "/rulesets") "/") sent ∙ refl ∙ sym empty
