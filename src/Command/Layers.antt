-- ===== src/Command/Layers.antt =====
-- What the flags that are set make of a loaded configuration.
use regula.Prelude.{
  ℤ, String, Bool, true, false, Option, none, some, List, [], ◌∷◌, ◌==◌, ◌≡◌, sym, ap, subst, ◌∙◌,
}
use regula.Outcome.{Result, ok, >>=-eq-ok, ◌>>=◌}
use regula.Command.{
  Config, split_commas, Flag, etcd_namespace, log_level, etcd_endpoints, addr, server_timeout,
  server_watch_timeout, flag_name, set_flag, set_flags,
}

-- The last text that a flag is set to.
abbrev pub later : Option String → Bool → String → Option String
later (some w) here v = some w
later none true v = some v
later none false v = none

abbrev pub last_text : Flag → List (Flag × String) → Option String
last_text f [] = none
last_text f ((g, v) ∷ fs) = later (last_text f fs) (flag_name g == flag_name f) v

-- A field of the configuration is what its flag was last set to, and if it was not set, what was
-- loaded.
abbrev pub IsLayered : {A : Type 0} → (String → A → Type 0) → A → Option String → A → Type 0
IsLayered Reads loaded none final = final ≡ loaded
IsLayered Reads loaded (some v) final = Reads v final

-- A text is stored as it is.
abbrev pub IsText : String → String → Type 0
IsText v final = final ≡ v

abbrev pub IsSplit : String → List String → Type 0
IsSplit v final = final ≡ split_commas v

-- What one flag does to the field of a flag.
abbrev pub Becomes : {A : Type 0} → (String → A → Type 0) → Bool → String → A → A → Type 0
Becomes Reads true v old new = Reads v new
Becomes Reads false v old new = new ≡ old

joined :
    {A : Type 0} (Reads : String → A → Type 0) (o : Option String) (b : Bool) (v : String)
    (old new final : A)
    → Becomes Reads b v old new
    → IsLayered Reads new o final
    → IsLayered Reads old (later o b v) final
joined Reads (some w) b v old new final here rest = rest
joined Reads none true v old new final here rest = subst (Reads v) (sym rest) here
joined Reads none false v old new final here rest = rest ∙ here

done : {A : Type 0} (field : Config → A) (x y : Config) → ok x ≡ ok y → field y ≡ field x
done field x y e = ap field (sym same)
  where
    same : x ≡ y
    same = cc

module _ (parse_duration : String → Result ℤ) where
  abbrev pub IsDuration : String → ℤ → Type 0
  IsDuration v final = parse_duration v ≡ ok final

  pub layered :
      {A : Type 0} (Reads : String → A → Type 0) (field : Config → A) (f : Flag)
      → ((cfg next : Config) (g : Flag) (v : String)
          → set_flag parse_duration cfg g v ≡ ok next
          → Becomes Reads (flag_name g == flag_name f) v (field cfg) (field next))
      → (fs : List (Flag × String)) (cfg final : Config)
      → set_flags parse_duration cfg fs ≡ ok final
      → IsLayered Reads (field cfg) (last_text f fs) (field final)
  unfolding set_flags
  layered Reads field f step [] cfg final e = done field cfg final e
  layered Reads field f step ((g, v) ∷ fs) cfg final e =
      let (next, here, rest) =
        >>=-eq-ok (set_flag parse_duration cfg g v) (λ c. set_flags parse_duration c fs) e in
      joined Reads (last_text f fs) (flag_name g == flag_name f) v (field cfg) (field next)
        (field final) (step cfg next g v here) (layered Reads field f step fs next final rest)

  -- A duration that is stored by a flag, and what a field becomes.
  stored :
      {A : Type 0} (field : Config → A) (cfg next : Config) (v : String) (store : ℤ → Config)
      → (parse_duration v >>= λ d. ok (store d)) ≡ ok next
      → (d : ℤ) × (parse_duration v ≡ ok d) × (field next ≡ field (store d))
  stored field cfg next v store e =
      let (d, parsed, put) = >>=-eq-ok (parse_duration v) (λ d. ok (store d)) e in
      (d, parsed, done field (store d) next put)

  pub namespace_step :
      (cfg next : Config) (g : Flag) (v : String)
      → set_flag parse_duration cfg g v ≡ ok next
      → Becomes IsText (flag_name g == "etcd-namespace") v cfg.namespace next.namespace
  unfolding set_flag flag_name
  namespace_step cfg next etcd_namespace v e = done (λ c. c.namespace) _ next e
  namespace_step cfg next log_level v e = done (λ c. c.namespace) _ next e
  namespace_step cfg next etcd_endpoints v e = done (λ c. c.namespace) _ next e
  namespace_step cfg next addr v e = done (λ c. c.namespace) _ next e
  namespace_step cfg next server_timeout v e =
      let (d, parsed, put) =
        stored (λ c. c.namespace) cfg next v (λ d. record cfg { timeout = d }) e in
      put
  namespace_step cfg next server_watch_timeout v e =
      let (d, parsed, put) =
        stored (λ c. c.namespace) cfg next v (λ d. record cfg { watch_timeout = d }) e in
      put

  pub level_step :
      (cfg next : Config) (g : Flag) (v : String)
      → set_flag parse_duration cfg g v ≡ ok next
      → Becomes IsText (flag_name g == "log-level") v cfg.log_level next.log_level
  unfolding set_flag flag_name
  level_step cfg next etcd_namespace v e = done (λ c. c.log_level) _ next e
  level_step cfg next log_level v e = done (λ c. c.log_level) _ next e
  level_step cfg next etcd_endpoints v e = done (λ c. c.log_level) _ next e
  level_step cfg next addr v e = done (λ c. c.log_level) _ next e
  level_step cfg next server_timeout v e =
      let (d, parsed, put) =
        stored (λ c. c.log_level) cfg next v (λ d. record cfg { timeout = d }) e in
      put
  level_step cfg next server_watch_timeout v e =
      let (d, parsed, put) =
        stored (λ c. c.log_level) cfg next v (λ d. record cfg { watch_timeout = d }) e in
      put

  pub endpoints_step :
      (cfg next : Config) (g : Flag) (v : String)
      → set_flag parse_duration cfg g v ≡ ok next
      → Becomes IsSplit (flag_name g == "etcd-endpoints") v cfg.endpoints next.endpoints
  unfolding set_flag flag_name
  endpoints_step cfg next etcd_namespace v e = done (λ c. c.endpoints) _ next e
  endpoints_step cfg next log_level v e = done (λ c. c.endpoints) _ next e
  endpoints_step cfg next etcd_endpoints v e = done (λ c. c.endpoints) _ next e
  endpoints_step cfg next addr v e = done (λ c. c.endpoints) _ next e
  endpoints_step cfg next server_timeout v e =
      let (d, parsed, put) =
        stored (λ c. c.endpoints) cfg next v (λ d. record cfg { timeout = d }) e in
      put
  endpoints_step cfg next server_watch_timeout v e =
      let (d, parsed, put) =
        stored (λ c. c.endpoints) cfg next v (λ d. record cfg { watch_timeout = d }) e in
      put

  pub address_step :
      (cfg next : Config) (g : Flag) (v : String)
      → set_flag parse_duration cfg g v ≡ ok next
      → Becomes IsText (flag_name g == "addr") v cfg.address next.address
  unfolding set_flag flag_name
  address_step cfg next etcd_namespace v e = done (λ c. c.address) _ next e
  address_step cfg next log_level v e = done (λ c. c.address) _ next e
  address_step cfg next etcd_endpoints v e = done (λ c. c.address) _ next e
  address_step cfg next addr v e = done (λ c. c.address) _ next e
  address_step cfg next server_timeout v e =
      let (d, parsed, put) =
        stored (λ c. c.address) cfg next v (λ d. record cfg { timeout = d }) e in
      put
  address_step cfg next server_watch_timeout v e =
      let (d, parsed, put) =
        stored (λ c. c.address) cfg next v (λ d. record cfg { watch_timeout = d }) e in
      put

  pub timeout_step :
      (cfg next : Config) (g : Flag) (v : String)
      → set_flag parse_duration cfg g v ≡ ok next
      → Becomes IsDuration (flag_name g == "server-timeout") v cfg.timeout next.timeout
  unfolding set_flag flag_name
  timeout_step cfg next etcd_namespace v e = done (λ c. c.timeout) _ next e
  timeout_step cfg next log_level v e = done (λ c. c.timeout) _ next e
  timeout_step cfg next etcd_endpoints v e = done (λ c. c.timeout) _ next e
  timeout_step cfg next addr v e = done (λ c. c.timeout) _ next e
  timeout_step cfg next server_timeout v e =
      let (d, parsed, put) =
        stored (λ c. c.timeout) cfg next v (λ d. record cfg { timeout = d }) e in
      parsed ∙ ap ok (sym put)
  timeout_step cfg next server_watch_timeout v e =
      let (d, parsed, put) =
        stored (λ c. c.timeout) cfg next v (λ d. record cfg { watch_timeout = d }) e in
      put

  pub watch_timeout_step :
      (cfg next : Config) (g : Flag) (v : String)
      → set_flag parse_duration cfg g v ≡ ok next
      → Becomes IsDuration
          (flag_name g == "server-watch-timeout")
          v
          cfg.watch_timeout
          next.watch_timeout
  unfolding set_flag flag_name
  watch_timeout_step cfg next etcd_namespace v e = done (λ c. c.watch_timeout) _ next e
  watch_timeout_step cfg next log_level v e = done (λ c. c.watch_timeout) _ next e
  watch_timeout_step cfg next etcd_endpoints v e = done (λ c. c.watch_timeout) _ next e
  watch_timeout_step cfg next addr v e = done (λ c. c.watch_timeout) _ next e
  watch_timeout_step cfg next server_timeout v e =
      let (d, parsed, put) =
        stored (λ c. c.watch_timeout) cfg next v (λ d. record cfg { timeout = d }) e in
      put
  watch_timeout_step cfg next server_watch_timeout v e =
      let (d, parsed, put) =
        stored (λ c. c.watch_timeout) cfg next v (λ d. record cfg { watch_timeout = d }) e in
      parsed ∙ ap ok (sym put)
