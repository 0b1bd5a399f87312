-- ===== src/Buffer/History.antt =====
-- A RulesetBuffer against the history of what was added to it.
use regula.Prelude.{
  String, false, Option, none, some, List, [], ◌∷◌, ◌++◌, lookup, lookup-insert, last?,
  last?-append, if◌then◌else◌, ◌==◌, ◌≡◌, ◌≢◌, refl, sym, ap, ◌∙◌, arith, eq_iff, append_assoc,
  append-nil, All, ◌↔◌, Bool-cases, inl, inr,
}
use regula.Outcome.{ok, err, engine_error, EngineError, ◌>>=◌}
use regula.Buffer.{
  RulesetInfo, RulesetBuffer, new_ruleset_buffer, or_empty, or_not_found, add, latest, find_version,
  find_info,
}

-- The versions under a path.
abbrev pub versions : RulesetBuffer → String → List RulesetInfo
versions b path = or_empty (lookup path b.rulesets)

-- The buffer after a list of additions, each with its path, version and ruleset.
unfoldable pub replay : RulesetBuffer → List RulesetInfo → RulesetBuffer
replay b [] = b
replay b (a ∷ log) = replay (add b a.path a.version a.r) log

-- The additions under a path, in their order.
pub history : String → List RulesetInfo → List RulesetInfo
history path [] = []
history path (a ∷ log) = if a.path == path then a ∷ history path log else history path log

pub versions-add :
    (b : RulesetBuffer) (a : RulesetInfo) (path : String)
    → versions (add b a.path a.version a.r) path
      ≡ (if a.path == path then versions b path ++ a ∷ [] else versions b path)
unfolding add
versions-add b a path =
    ground (
      arith,
      lookup-insert a.path path (versions b a.path ++ a ∷ []) b.rulesets,
      eq_iff a.path path,
    )

versions-replay :
    (log : List RulesetInfo) (b : RulesetBuffer) (path : String)
    → versions (replay b log) path ≡ versions b path ++ history path log
unfolding replay history
versions-replay [] b path = sym (append-nil _)
versions-replay (a ∷ log) b path = ground (
  arith,
  versions-replay log (add b a.path a.version a.r) path,
  versions-add b a path,
  append_assoc (versions b path) (a ∷ []) (history path log),
)

-- A new buffer holds, under each path, what was added under it.
versions-new :
    (log : List RulesetInfo) (path : String)
    → versions (replay new_ruleset_buffer log) path ≡ history path log
versions-new log path =
    versions-replay log new_ruleset_buffer path
    ∙ (unfold new_ruleset_buffer in nil_left path (history path log))
  where
    nil_left : (path : String) (l : List RulesetInfo) → or_empty (lookup path []) ++ l ≡ l
    nil_left path l = unfold lookup in refl

latest-of :
    (b : RulesetBuffer) (path : String) (o : Option RulesetInfo)
    → last? (versions b path) ≡ o
    → latest b path ≡ (or_not_found o >>= λ ri. ok (ri.r, ri.version))
unfolding latest
latest-of b path o h = ap (λ x. or_not_found x >>= λ ri. ok (ri.r, ri.version)) h

-- After any additions to a new buffer, Latest returns ErrRulesetNotFound for a path under which
-- nothing was added, and otherwise the ruleset and the version of the last addition under it.
pub latest-replay :
    (log : List RulesetInfo) (path : String)
    → (history path log ≡ []
        → latest (replay new_ruleset_buffer log) path
          ≡ err (engine_error EngineError.ruleset_not_found))
      × ((before : List RulesetInfo) (ri : RulesetInfo)
          → history path log ≡ before ++ ri ∷ []
          → latest (replay new_ruleset_buffer log) path ≡ ok (ri.r, ri.version))
latest-replay log path = (
  λ h. latest-of (replay new_ruleset_buffer log) path none (ap last? (versions-new log path ∙ h)),
  λ before ri h.
      latest-of (replay new_ruleset_buffer log) path (some ri)
        (ap last? (versions-new log path ∙ h) ∙ last?-append before ri),
)

-- The first entry of a list with a version.
pub record IsFirst (version : String) (l : List RulesetInfo) (ri : RulesetInfo) : Type 0 where
  pub before : List RulesetInfo
  pub after : List RulesetInfo
  pub split : l ≡ before ++ ri ∷ after
  pub others : All (λ a. a.version ≢ version) before
  pub same : ri.version ≡ version

find_version-IsFirst :
    (version : String) (l : List RulesetInfo) (ri : RulesetInfo)
    → find_version version l ≡ ok ri
    → IsFirst version l ri
unfolding find_version
find_version-IsFirst version [] ri h = cc
find_version-IsFirst version (a ∷ l) ri h = elim (Bool-cases (a.version == version)) [
  | inl e ↦
      let same : a ≡ ri = ground arith in
      record {
        before = [];
        after = l;
        split = ap (λ x. x ∷ l) same;
        others = tt;
        same = ap (λ x. x.version) (sym same) ∙ (eq_iff a.version version).0 e;
      }
  | inr e ↦
      let f = find_version-IsFirst version l ri (ground arith) in
      record {
        before = a ∷ f.before;
        after = f.after;
        split = ap (λ x. a ∷ x) f.split;
        others = (ne_of a e, f.others);
        same = f.same;
      }
]
  where
    ne_of : (x : RulesetInfo) → (x.version == version) ≡ false → x.version ≢ version
    ne_of x e p = cc (e, (eq_iff x.version version).1 p)

find_version-first :
    (version : String) (ri : RulesetInfo) (before after : List RulesetInfo)
    → All (λ a. a.version ≢ version) before
    → ri.version ≡ version
    → find_version version (before ++ ri ∷ after) ≡ ok ri
unfolding find_version
find_version-first version ri [] after _ h = ground (arith, eq_iff ri.version version)
find_version-first version ri (a ∷ before) after (ne, k) h =
    ground (arith, eq_iff a.version version, find_version-first version ri before after k h)

-- After any additions to a new buffer, getVersion finds an entry exactly when it is the first
-- addition of that version under the path: a later addition with the same version is never
-- returned.
pub find_info-replay_iff :
    (log : List RulesetInfo) (path version : String) (ri : RulesetInfo)
    → (find_info (replay new_ruleset_buffer log) path version ≡ ok ri)
      ↔ IsFirst version (history path log) ri
unfolding find_info
find_info-replay_iff log path version ri = (
  λ h.
      find_version-IsFirst version (history path log) ri
        (ap (find_version version) (sym (versions-new log path)) ∙ h),
  λ f.
      ap (find_version version) (versions-new log path ∙ f.split)
      ∙ find_version-first version ri f.before f.after f.others f.same,
)
