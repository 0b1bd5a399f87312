-- ===== src/Regexp/Language.antt =====
-- The texts that an expression stands for, and that the derivatives decide them.
use regula.Prelude.{
  ℕ, Bool, true, false, ◌&&◌, ◌||◌, List, [], ◌∷◌, ◌++◌, ◌≡◌, refl, sym, ap, subst, ◌∙◌, ◌↔◌, ◌⊎◌,
  inl, inr, All, Bool-cases, arith,
}
use regula.Regexp.{
  Regex, never, empty, class, alt, seq, star, in_class, nullable, deriv, match_codes,
}

abbrev pub Text : Type 0
Text = List ℕ

abbrev pub concat : List Text → Text
concat [] = []
concat (p ∷ ps) = p ++ concat ps

abbrev pub Matches : Regex → Text → Type 0
Matches never s = ⊥
Matches empty s = s ≡ []
Matches (class k) s = (c : ℕ) × (s ≡ c ∷ []) × (in_class k c ≡ true)
Matches (alt a b) s = Matches a s ⊎ Matches b s
Matches (seq a b) s = (x : Text) × (y : Text) × (s ≡ x ++ y) × Matches a x × Matches b y
Matches (star a) s = (ps : List Text) × (s ≡ concat ps) × All (Matches a) ps

and-true : (a b : Bool) → (a && b) ≡ true → (a ≡ true) × (b ≡ true)
and-true true b h = (refl, h)
and-true false b h = cc

or-true : (a b : Bool) → (a || b) ≡ true → (a ≡ true) ⊎ (b ≡ true)
or-true true b h = inl refl
or-true false b h = inr h

append-empty : (x y : Text) → [] ≡ x ++ y → (x ≡ []) × (y ≡ [])
append-empty [] y h = (refl, sym h)
append-empty (c ∷ x) y h = cc

nullable_sound : (r : Regex) → nullable r ≡ true → Matches r []
unfolding nullable
nullable_sound never h = cc
nullable_sound empty h = refl
nullable_sound (class k) h = cc
nullable_sound (alt a b) h = elim (or-true (nullable a) (nullable b) h) [
  | inl e ↦ inl (nullable_sound a e)
  | inr e ↦ inr (nullable_sound b e)
]
nullable_sound (seq a b) h =
    let (ea, eb) = and-true (nullable a) (nullable b) h in
    ([], [], refl, nullable_sound a ea, nullable_sound b eb)
nullable_sound (star a) h = ([], refl, tt)

nullable_complete : (r : Regex) → Matches r [] → nullable r ≡ true
unfolding nullable
nullable_complete never h = absurd h
nullable_complete empty h = refl
nullable_complete (class k) (c, e, _) = cc
nullable_complete (alt a b) (inl h) = rw (nullable_complete a h) refl
nullable_complete (alt a b) (inr h) = ground (arith, nullable_complete b h)
nullable_complete (seq a b) (x, y, e, ha, hb) =
    let (ex, ey) = append-empty x y e in
    rw (nullable_complete a (subst (Matches a) ex ha))
      (nullable_complete b (subst (Matches b) ey hb))
nullable_complete (star a) h = refl

-- The first piece that is not empty begins with the first character.
first_piece :
    (a : Regex) (c : ℕ) (s : Text) (ps : List Text)
    → c ∷ s ≡ concat ps
    → All (Matches a) ps
    → (x : Text) × (y : Text) × (s ≡ x ++ y) × Matches a (c ∷ x) × Matches (star a) y
first_piece a c s [] e h = cc
first_piece a c s ([] ∷ ps) e (_, hs) = first_piece a c s ps e hs
first_piece a c s ((d ∷ x) ∷ ps) e (h, hs) =
    let same : d ≡ c = cc in
    (x, concat ps, cc, subst (λ n. Matches a (n ∷ x)) same h, (ps, refl, hs))

mutual
  unfolding deriv

  deriv_sound : (r : Regex) (c : ℕ) (s : Text) → Matches (deriv c r) s → Matches r (c ∷ s)
  deriv_sound never c s h = absurd h
  deriv_sound empty c s h = absurd h
  deriv_sound (class k) c s h = elim (Bool-cases (in_class k c)) [
    | inl e ↦ let nil : s ≡ [] = rw e at h in (c, ap (λ l. c ∷ l) nil, e)
    | inr e ↦ let none_left : ⊥ = rw e at h in absurd none_left
  ]
  deriv_sound (alt a b) c s (inl h) = inl (deriv_sound a c s h)
  deriv_sound (alt a b) c s (inr h) = inr (deriv_sound b c s h)
  deriv_sound (seq a b) c s (inl (x, y, e, ha, hb)) =
      (c ∷ x, y, ap (λ l. c ∷ l) e, deriv_sound a c x ha, hb)
  deriv_sound (seq a b) c s (inr h) = elim (Bool-cases (nullable a)) [
    | inl e ↦
        let hb : Matches (deriv c b) s = rw e at h in
        ([], c ∷ s, refl, nullable_sound a e, deriv_sound b c s hb)
    | inr e ↦ let none_left : ⊥ = rw e at h in absurd none_left
  ]
  deriv_sound (star a) c s (x, y, e, ha, (ps, ey, hs)) =
      ((c ∷ x) ∷ ps, ap (λ l. c ∷ l) (e ∙ ap (λ l. x ++ l) ey), (deriv_sound a c x ha, hs))

mutual
  unfolding deriv

  deriv_complete : (r : Regex) (c : ℕ) (s : Text) → Matches r (c ∷ s) → Matches (deriv c r) s
  deriv_complete never c s h = absurd h
  deriv_complete empty c s h = cc
  deriv_complete (class k) c s (d, e, h) =
      let same : d ≡ c = cc in
      let inside : in_class k c ≡ true = subst (λ n. in_class k n ≡ true) same h in
      let nil : s ≡ [] = cc in rw inside nil
  deriv_complete (alt a b) c s (inl h) = inl (deriv_complete a c s h)
  deriv_complete (alt a b) c s (inr h) = inr (deriv_complete b c s h)
  deriv_complete (seq a b) c s ([], y, e, ha, hb) =
      rw (nullable_complete a ha) (inr (deriv_complete b c s (subst (Matches b) (sym e) hb)))
  deriv_complete (seq a b) c s (d ∷ x, y, e, ha, hb) =
      let same : d ≡ c = cc in
      inl (x, y, cc, deriv_complete a c x (subst (λ n. Matches a (n ∷ x)) same ha), hb)
  deriv_complete (star a) c s (ps, e, h) =
      let (x, y, split, ha, rest) = first_piece a c s ps e h in
      (x, y, split, deriv_complete a c x ha, rest)

-- A text is matched exactly when it is one that the expression stands for.
pub match_codes_iff : (r : Regex) (s : Text) → (match_codes r s ≡ true) ↔ Matches r s
unfolding match_codes
match_codes_iff r [] = (nullable_sound r, nullable_complete r)
match_codes_iff r (c ∷ s) =
    let (to, from) = match_codes_iff (deriv c r) s in
    (λ h. deriv_sound r c s (to h), λ h. from (deriv_complete r c s h))
