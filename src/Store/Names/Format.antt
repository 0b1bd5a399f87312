-- ===== src/Store/Names/Format.antt =====
-- Which names are accepted, without the regular expressions.
use regula.Prelude.{
  ℕ, ◌≤◌, true, List, [], ◌∷◌, ◌++◌, ◌≡◌, refl, sym, ap, subst, ◌∙◌, ◌↔◌, ◌⊎◌, inl, inr, All, arith,
}
use regula.Regexp.{Regex, class, seq, star, plus, opt, Spans, in_class}
use regula.Regexp.Language.{Text, Matches, concat}

abbrev pub IsLower : ℕ → Type 0
IsLower c = (b'a' ≤ c) × (c ≤ b'z')

abbrev pub IsAlnum : ℕ → Type 0
IsAlnum c = IsLower c ⊎ ((b'0' ≤ c) × (c ≤ b'9'))

-- The text begins with a letter or a digit.
abbrev pub StartsAlnum : Text → Type 0
StartsAlnum [] = ⊥
StartsAlnum (c ∷ s) = IsAlnum c

-- Each character is a letter, a digit, or a separator that a letter or a digit follows.
abbrev pub IsSeparated : (ℕ → Type 0) → Text → Type 0
IsSeparated Sep [] = Unit
IsSeparated Sep (c ∷ s) = (IsAlnum c ⊎ (Sep c × StartsAlnum s)) × IsSeparated Sep s

-- A name begins with a letter.
abbrev pub IsName : (ℕ → Type 0) → Text → Type 0
IsName Sep [] = ⊥
IsName Sep (c ∷ s) = IsLower c × IsSeparated Sep s

in-IsLower_iff : (c : ℕ) → (in_class ((b'a', b'z') ∷ []) c ≡ true) ↔ IsLower c
unfolding in_class
in-IsLower_iff c = (λ h. ground arith, λ h. ground arith)

in-IsAlnum_iff : (c : ℕ) → (in_class ((b'a', b'z') ∷ (b'0', b'9') ∷ []) c ≡ true) ↔ IsAlnum c
unfolding in_class
in-IsAlnum_iff c = (λ h. ground arith, λ h. ground arith)

-- The shape of both expressions, over the class of an optional character.
module _ (Sep : ℕ → Type 0) (k : Spans)
    (k_iff : (c : ℕ) → (in_class k c ≡ true) ↔ (IsAlnum c ⊎ Sep c)) where
  abbrev pair : Regex
  pair = seq (opt (class k)) (class ((b'a', b'z') ∷ (b'0', b'9') ∷ []))

  abbrev name : Regex
  name = seq (plus (class ((b'a', b'z') ∷ []))) (star pair)

  piece_sound : (p s : Text) → Matches pair p → IsSeparated Sep s → IsSeparated Sep (p ++ s)
  piece_sound p s (x, y, e, inl (c, ex, inside), (d, ey, alnum)) h =
      let split : p ≡ c ∷ d ∷ [] = e ∙ ap (λ l. l ++ y) ex ∙ ap (λ l. c ∷ l) ey in
      let good = (in-IsAlnum_iff d).0 alnum in
      subst (λ l. IsSeparated Sep (l ++ s)) (sym split)
        (elim ((k_iff c).0 inside) [ inl a ↦ inl a | inr b ↦ inr (b, good) ], (inl good, h))
  piece_sound p s (x, y, e, inr ex, (d, ey, alnum)) h =
      let split : p ≡ d ∷ [] = e ∙ ap (λ l. l ++ y) ex ∙ ey in
      subst (λ l. IsSeparated Sep (l ++ s)) (sym split) (inl ((in-IsAlnum_iff d).0 alnum), h)

  pieces_sound : (ps : List Text) → All (Matches pair) ps → IsSeparated Sep (concat ps)
  pieces_sound [] h = tt
  pieces_sound (p ∷ ps) (h, hs) = piece_sound p (concat ps) h (pieces_sound ps hs)

  pieces_complete : (s : Text) → IsSeparated Sep s → Matches (star pair) s
  pieces_complete [] h = ([], refl, tt)
  pieces_complete (c ∷ s) (inl alnum, h) =
      let (ps, e, hs) = pieces_complete s h in
      (
        (c ∷ []) ∷ ps,
        ap (λ l. c ∷ l) e,
        (([], c ∷ [], refl, inr refl, (c, refl, (in-IsAlnum_iff c).1 alnum)), hs),
      )
  pieces_complete (c ∷ []) (inr (sep, h), _) = absurd h
  pieces_complete (c ∷ d ∷ s) (inr (sep, alnum), (_, h)) =
      let (ps, e, hs) = pieces_complete s h in
      (
        (c ∷ d ∷ []) ∷ ps,
        ap (λ l. c ∷ d ∷ l) e,
        (
          (
            c ∷ [],
            d ∷ [],
            refl,
            inl (c, refl, (k_iff c).1 (inr sep)),
            (d, refl, (in-IsAlnum_iff d).1 alnum),
          ),
          hs,
        ),
      )

  letters_sound :
      (ps : List Text) (s : Text)
      → All (Matches (class ((b'a', b'z') ∷ []))) ps
      → IsSeparated Sep s
      → IsSeparated Sep (concat ps ++ s)
  letters_sound [] s h k = k
  letters_sound (p ∷ ps) s ((c, e, lower), hs) rest =
      subst (λ l. IsSeparated Sep ((l ++ concat ps) ++ s)) (sym e)
        (inl (inl ((in-IsLower_iff c).0 lower)), letters_sound ps s hs rest)

  pub name_iff : (s : Text) → Matches name s ↔ IsName Sep s
  name_iff s = (to s, from s)
    where
      to : (t : Text) → Matches name t → IsName Sep t
      to t (x, y, e, (x₁, x₂, ex, (c, e₁, lower), (ps, e₂, hs)), (qs, ey, ks)) =
          let split : t ≡ c ∷ (concat ps ++ y) =
            e ∙ ap (λ l. l ++ y) (ex ∙ ap (λ l. l ++ x₂) e₁ ∙ ap (λ l. c ∷ l) e₂) in
          subst (IsName Sep) (sym split) (
            (in-IsLower_iff c).0 lower,
            letters_sound ps y hs (subst (IsSeparated Sep) (sym ey) (pieces_sound qs ks)),
          )

      from : (t : Text) → IsName Sep t → Matches name t
      from [] h = absurd h
      from (c ∷ t) (lower, h) = (
        c ∷ [],
        t,
        refl,
        (c ∷ [], [], refl, (c, refl, (in-IsLower_iff c).1 lower), ([], refl, tt)),
        pieces_complete t h,
      )
