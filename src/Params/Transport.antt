-- ===== src/Params/Transport.antt =====
-- Parameters that a client sends as texts in a query string and the server parses again: the loop
-- of EvalVersion in api/client/rulesets.go against the getters of api/server/param.go.
use regula.Prelude.{
  InInt64, String, none, some, List, [], ◌∷◌, ◌++◌, lookup, lookup-cons, keys, ◌≡◌, ◌≢◌, refl, sym,
  arith, eq_iff, if◌then◌else◌, ◌==◌, subst, Bool-cases, Any, All, All-map, inl, inr, ap, ◌∙◌,
  append-nil, ◌⊎◌,
}
use regula.Outcome.{Result, ok, ◌>>=◌, >>=-eq-ok}
use regula.Strconv.{format_bool, format_int}
use regula.Strconv.Parse.{parse_bool-format_bool}
use regula.Strconv.RoundTrip.{parse_int-format_int}
use regula.Floats.{Floats}
use regula.Rule.Value.{
  TypeCase, bool_case, string_case, int64_case, float64_case, unsupported, type_case,
}
use regula.Rule.Expr.{Param}
use regula.Rule.Eval.{Params, get_param, eval_param}
use regula.Rule.Params.{SameAt}
use regula.Ruleset.{Ruleset, eval_ruleset}
use regula.Ruleset.Coherent.{all_params}
use regula.Ruleset.Locality.{eval_ruleset-same}
use regula.Params.{Dynamic, string, int64, float64, bool, encode, map_params, query_params}

-- `for _, k := range params.Keys() { … q.Add(k, v) }`.
unfoldable pub encode_params :
    {fl : Floats} → Params fl → List String → Result (List (String × String))
encode_params ps [] = ok []
encode_params ps (k ∷ ks) = do v ← ps.encode_value k; q ← encode_params ps ks; ok ((k, v) ∷ q)

-- `if version != "" { q.Add("version", version) }`.
unfoldable pub version_part : String → List (String × String)
version_part version = if version == "" then [] else ("version", version) ∷ []

-- The query string of an evaluation; the server reads the first value of each key.
unfoldable pub eval_query : String → List (String × String) → List (String × String)
eval_query version q = ("eval", "") ∷ (q ++ version_part version)

lookup-keys :
    {V : Type 0} (k : String) (m : List (String × V))
    → lookup k m ≢ none
    → Any (λ j. j ≡ k) (keys m)
unfolding lookup
lookup-keys k [] h = h refl
lookup-keys k ((j, v) ∷ m) h = ground (arith, eq_iff j k, lookup-keys k m)

lookup-encode_params :
    {fl : Floats} (ps : Params fl) (k : String) (ks : List String) (q : List (String × String))
    → encode_params ps ks ≡ ok q
    → Any (λ j. j ≡ k) ks
    → (s : String) × (lookup k q ≡ some s) × (ps.encode_value k ≡ ok s)
unfolding encode_params
lookup-encode_params ps k [] q e a = absurd a
lookup-encode_params ps k (j ∷ ks) q e a =
    let (v, here, more) =
      >>=-eq-ok (ps.encode_value j) (λ v. encode_params ps ks >>= λ r. ok ((j, v) ∷ r)) e in
    let (r, there, split) = >>=-eq-ok (encode_params ps ks) (λ r. ok ((j, v) ∷ r)) more in
    let same : q ≡ (j, v) ∷ r = cc in
    subst (λ l. (s : String) × (lookup k l ≡ some s) × (ps.encode_value k ≡ ok s)) (sym same)
      (elim (Bool-cases (j == k)) [
        | inl b ↦ (
          v,
          rw (lookup-cons k j v r, b),
          subst (λ n. ps.encode_value n ≡ ok v) ((eq_iff j k).0 b) here,
        )
        | inr b ↦
            let rest : Any (λ i. i ≡ k) ks = elim a [
              | inl i ↦ cc (b, (eq_iff j k).1 i)
              | inr c ↦ c
            ] in
            let (s, found, sent) = lookup-encode_params ps k ks r there rest in
            (s, rw (lookup-cons k j v r, b) found, sent)
      ])

lookup-append :
    (k s : String) (q r : List (String × String)) → lookup k q ≡ some s → lookup k (q ++ r) ≡ some s
unfolding lookup
lookup-append k s [] r h = cc
lookup-append k s ((j, v) ∷ q) r h = ground (arith, lookup-append k s q r)

pub encode_params-absent :
    {fl : Floats} (ps : Params fl) (w : String) (ks : List String) (q : List (String × String))
    → All (λ k. k ≢ w) ks
    → encode_params ps ks ≡ ok q
    → lookup w q ≡ none
unfolding encode_params lookup
encode_params-absent ps w [] q h e = let same : q ≡ [] = cc in ap (lookup w) same
encode_params-absent ps w (k ∷ ks) q (ne, h) e =
    let (v, here, more) =
      >>=-eq-ok (ps.encode_value k) (λ v. encode_params ps ks >>= λ r. ok ((k, v) ∷ r)) e in
    let (r, there, split) = >>=-eq-ok (encode_params ps ks) (λ r. ok ((k, v) ∷ r)) more in
    let same : q ≡ (k, v) ∷ r = cc in
    let later : lookup w r ≡ none = encode_params-absent ps w ks r h there in
    ap (lookup w) same ∙ lookup-cons w k v r ∙ ground (arith, eq_iff k w, ne, later)

lookup-none-keys :
    {V : Type 0} (k : String) (m : List (String × V))
    → lookup k m ≡ none
    → All (λ j. j ≢ k) (keys m)
unfolding lookup
lookup-none-keys k [] h = tt
lookup-none-keys k ((j, v) ∷ m) h = elim (Bool-cases (j == k)) [
  | inl b ↦ cc (b, h)
  | inr b ↦ (λ e. cc (b, (eq_iff j k).1 e), lookup-none-keys k m (ground (arith, b, h)))
]

-- A key other than "eval" that the map lacks is not in the query for the latest version.
lookup-eval_query_absent :
    {fl : Floats} (k : String) (m : List (String × Dynamic fl)) (q : List (String × String))
    → k ≢ "eval"
    → lookup k m ≡ none
    → encode_params (map_params fl m) (keys m) ≡ ok q
    → lookup k (eval_query "" q) ≡ none
unfolding eval_query version_part
lookup-eval_query_absent {fl = fl} k m q ne h e =
    let missing = encode_params-absent (map_params fl m) k (keys m) q (lookup-none-keys k m h) e in
    rw (append-nil q) (lookup-cons k "eval" "" q ∙ ground (arith, eq_iff "eval" k, ne, missing))

-- A key other than "eval" reads what was sent for it, whatever version is asked for.
lookup-eval_query :
    (version k s : String) (q : List (String × String))
    → k ≢ "eval"
    → lookup k q ≡ some s
    → lookup k (eval_query version q) ≡ some s
unfolding eval_query lookup
lookup-eval_query version k s q ne h =
    ground (arith, eq_iff "eval" k, lookup-append k s q (version_part version) h)

module _ (fl : Floats) where
  -- The map holds a value of the type that the case names, and its text is read back as that
  -- value: an int64 is in range, and of a float its six decimals are all that it has.
  abbrev pub Carries : TypeCase → Dynamic fl → Type 0
  Carries string_case (string s) = Unit
  Carries bool_case (bool b) = Unit
  Carries int64_case (int64 i) = InInt64 i
  Carries float64_case (float64 f) = fl.parse_float (fl.format_float f) ≡ (f, none)
  Carries _ _ = ⊥

  -- The getters on both sides, at one name.
  get_param-sent :
      (m : List (String × Dynamic fl)) (q : List (String × String)) (t : TypeCase) (n s : String)
      (d : Dynamic fl)
      → lookup n m ≡ some d
      → lookup n q ≡ some s
      → encode fl (some d) ≡ ok s
      → Carries t d
      → get_param fl (map_params fl m) t n ≡ get_param fl (query_params fl q) t n
  unfolding get_param map_params query_params
  get_param-sent m q string_case n s (string v) h k e c = let same : v ≡ s = cc in rw (h, k, same)
  get_param-sent m q bool_case n s (bool v) h k e c =
      let same : s ≡ format_bool v = cc in rw (h, k, same, parse_bool-format_bool v)
  get_param-sent m q int64_case n s (int64 v) h k e c =
      let same : s ≡ format_int v = cc in rw (h, k, same, parse_int-format_int v c)
  get_param-sent m q float64_case n s (float64 v) h k e c =
      let same : s ≡ fl.format_float v = cc in rw (h, k, same, c)
  get_param-sent m q _ n s _ h k e c = absurd c

  encoded :
      (m : List (String × Dynamic fl)) (n s : String) (d : Dynamic fl)
      → lookup n m ≡ some d
      → (map_params fl m).encode_value n ≡ ok s
      → encode fl (some d) ≡ ok s
  unfolding map_params
  encoded m n s d h e = rw h at e

  -- The map holds, under a name other than "eval", a value that a parameter can be read from.
  pub record IsHeld (m : List (String × Dynamic fl)) (p : Param) : Type 0 where
    pub held : Dynamic fl
    pub found : lookup p.name m ≡ some held
    pub carries : Carries (type_case p.type) held
    pub named : p.name ≢ "eval"

  param-sent :
      (m : List (String × Dynamic fl)) (q : List (String × String)) (version : String) (p : Param)
      → encode_params (map_params fl m) (keys m) ≡ ok q
      → IsHeld m p
      → SameAt fl (some (map_params fl m)) (some (query_params fl (eval_query version q))) p
  unfolding eval_param
  param-sent m q version p e h =
      let at_key = lookup-keys p.name m (λ none_there. cc (h.found, none_there)) in
      let (s, sent, text) = lookup-encode_params (map_params fl m) p.name (keys m) q e at_key in
      get_param-sent m (eval_query version q) (type_case p.type) p.name s h.held h.found
        (lookup-eval_query version p.name s q h.named sent) (encoded m p.name s h.held h.found text)
        h.carries

  -- A ruleset evaluates to the same outcome at the client, over its map of values, and at the
  -- server, over the query string that the client sent for it: if the map can be encoded, and holds
  -- under each parameter's name, which is not "eval", a value of that parameter's type, an int64 in
  -- range and a float that its six printed decimals give back.
  pub remote_eval :
      (m : List (String × Dynamic fl)) (q : List (String × String)) (version : String)
      (rs : Ruleset)
      → encode_params (map_params fl m) (keys m) ≡ ok q
      → All (IsHeld m) (all_params rs.rules)
      → eval_ruleset fl (some (map_params fl m)) rs
        ≡ eval_ruleset fl (some (query_params fl (eval_query version q))) rs
  remote_eval m q version rs e h =
      eval_ruleset-same fl _ _ rs
        (All-map (λ p. param-sent m q version p e) (all_params rs.rules) h)

  -- The getters on both sides, at a name that neither has.
  get_param-absent :
      (m : List (String × Dynamic fl)) (q : List (String × String)) (t : TypeCase) (n : String)
      → lookup n m ≡ none
      → lookup n q ≡ none
      → get_param fl (map_params fl m) t n ≡ get_param fl (query_params fl q) t n
  unfolding get_param map_params query_params
  get_param-absent m q string_case n h k = rw (h, k) refl
  get_param-absent m q bool_case n h k = rw (h, k) refl
  get_param-absent m q int64_case n h k = rw (h, k) refl
  get_param-absent m q float64_case n h k = rw (h, k) refl
  get_param-absent m q unsupported n h k = refl

  -- The map holds a value that the parameter can be read from, or nothing under its name, which is
  -- not "eval".
  abbrev pub IsCarried : List (String × Dynamic fl) → Param → Type 0
  IsCarried m p = IsHeld m p ⊎ ((lookup p.name m ≡ none) × (p.name ≢ "eval"))

  param-carried :
      (m : List (String × Dynamic fl)) (q : List (String × String)) (p : Param)
      → encode_params (map_params fl m) (keys m) ≡ ok q
      → IsCarried m p
      → SameAt fl (some (map_params fl m)) (some (query_params fl (eval_query "" q))) p
  unfolding eval_param
  param-carried m q p e (inl h) = param-sent m q "" p e h
  param-carried m q p e (inr (absent, named)) =
      get_param-absent m (eval_query "" q) (type_case p.type) p.name absent
        (lookup-eval_query_absent p.name m q named absent e)

  -- The same for the latest version, where the map may lack parameters.
  pub latest_eval :
      (m : List (String × Dynamic fl)) (q : List (String × String)) (rs : Ruleset)
      → encode_params (map_params fl m) (keys m) ≡ ok q
      → All (IsCarried m) (all_params rs.rules)
      → eval_ruleset fl (some (map_params fl m)) rs
        ≡ eval_ruleset fl (some (query_params fl (eval_query "" q))) rs
  latest_eval m q rs e h =
      eval_ruleset-same fl _ _ rs (All-map (λ p. param-carried m q p e) (all_params rs.rules) h)
