-- ===== src/Store/Etcd/Ending.antt =====
-- How a call of Put of store/etcd/rulesets.go ends.
use regula.Prelude.{
  String, Bool, true, false, Option, none, some, if◌then◌else◌, ◌==◌, ◌≡◌, ◌≢◌, refl, ◌∙◌, ◌⊎◌, inl,
  inr, Bool-cases,
}
use regula.Outcome.{Error, Result, ok, err, panic, wrapped, store_error, StoreError, ◌>>=◌}
use regula.Ruleset.{Ruleset}
use regula.Store.{RulesetEntry, Signature, new_signature, is_validation_error}
use regula.Store.Names.Validation.{IsAccepted, validate_ruleset_decides}
use regula.Store.Etcd.{
  KeyValues, Codec, stm_get, bytes_text, checksum, checksums_path, latest_ruleset_path, read_entry,
  wrap, write_version, put_new, txn, commit, finish_put, put_valid, Answer, put,
}
use regula.Store.Etcd.Shelf.{IsCodec}
use regula.Store.Etcd.Steps.{put-accepted}

module _ (cd : Codec) (ns : String) where
  -- Put leaves the state as it was, or it is a Put of an accepted ruleset in which nothing fails.
  pub record Writes (kv kv' : KeyValues) (p : String) (rs : Ruleset) (ksuid : Result String)
      (answer : Option RulesetEntry × Option Error) : Type 0 where
    pub accepted : IsAccepted p rs
    pub version : String
    pub made : ksuid ≡ ok version
    pub result : put cd ns kv p rs (ok version) none ≡ ok (kv', answer)

  finish_err :
      (kv kv' : KeyValues) (e : Error) (answer : Option RulesetEntry × Option Error)
      → finish_put cd ns kv (err e) ≡ ok (kv', answer)
      → kv ≡ kv'
  unfolding finish_put
  finish_err kv kv' e answer h = elim (Bool-cases (is_validation_error e)) [
    | inl b ↦ cc (h, b)
    | inr b ↦ cc (h, b)
  ]

  module _ (kv kv' : KeyValues) (answer : Option RulesetEntry × Option Error) where
    pub finish_same :
        (r : Result RulesetEntry)
        → finish_put cd ns kv
            (r >>= λ entry. ok (kv, (entry, some (store_error StoreError.not_modified))))
          ≡ ok (kv', answer)
        → kv ≡ kv'
    unfolding finish_put
    finish_same (ok entry) h = cc
    finish_same (err e) h = finish_err kv kv' e answer h
    finish_same panic h = cc

    finish_failed :
        (c : Result (Unit {0})) (next : Result (KeyValues × (RulesetEntry × Option Error)))
        → (finish_put cd ns kv next ≡ ok (kv', answer) → kv ≡ kv')
        → finish_put cd ns kv (c >>= λ _. next) ≡ ok (kv', answer)
        → kv ≡ kv'
    unfolding finish_put
    finish_failed (ok _) next k h = k h
    finish_failed (err f) next k h = finish_err kv kv' f answer h
    finish_failed panic next k h = cc

    -- A transaction that gets no version.
    txn_failed :
        (p : String) (rs : Ruleset) (sig : Signature) (ksuid : Result String)
        → ((v : String) → ksuid ≢ ok v)
        → finish_put cd ns kv (txn cd ns kv p rs sig ksuid) ≡ ok (kv', answer)
        → kv ≡ kv'
    unfolding txn put_new finish_put
    txn_failed p rs sig ksuid ne h =
        go (bytes_text cd ns (stm_get kv (checksums_path ns p)) == checksum cd ns rs) ksuid ne h
      where
        lost :
            (k : Result String)
            → ((v : String) → k ≢ ok v)
            → finish_put cd ns kv (
                wrap k "failed to generate ruleset version" >>= λ v. ok (
                  (write_version cd ns kv p rs sig v).0,
                  ((write_version cd ns kv p rs sig v).1, none),
                ))
              ≡ ok (kv', answer)
            → kv ≡ kv'
        lost (ok v) n g = absurd (n v refl)
        lost (err e) n g =
            finish_err kv kv' (wrapped e "failed to generate ruleset version") answer g
        lost panic n g = cc

        go :
            (b : Bool) (k : Result String)
            → ((v : String) → k ≢ ok v)
            → finish_put cd ns kv (
                if b
                then (read_entry cd ns
                      (stm_get kv (bytes_text cd ns (stm_get kv (latest_ruleset_path ns p))))
                    >>= λ entry. ok (kv, (entry, some (store_error StoreError.not_modified))))
                else put_new cd ns kv p rs sig k)
              ≡ ok (kv', answer)
            → kv ≡ kv'
        go true k n g = finish_same _ g
        go false k n g = finish_failed _ _ (lost k n) g

    -- How a Put ends.
    pub put-cases :
        (laws : IsCodec cd) (p : String) (rs : Ruleset) (ksuid : Result String)
        (failure : Option Error)
        → put cd ns kv p rs ksuid failure ≡ ok (kv', answer)
        → (kv ≡ kv') ⊎ Writes kv kv' p rs ksuid answer
    unfolding put put_valid commit
    put-cases laws p rs ksuid failure h = elim (validate_ruleset_decides p rs) [
      | inl (a, e) ↦ accepted a ksuid failure (rw e at h)
      | inr (_, (f, c, r, e)) ↦ inl (refused (rw e at h))
    ]
      where
        refused :
            {e : Error}
            → ◌≡◌ {A = Result (Answer cd ns)} (ok (kv, (none, some e))) (ok (kv', answer))
            → kv ≡ kv'
        refused e = cc

        accepted :
            IsAccepted p rs
            → (k : Result String) (f : Option Error)
            → finish_put cd ns kv (commit cd ns f (txn cd ns kv p rs (new_signature rs) k))
              ≡ ok (kv', answer)
            → (kv ≡ kv') ⊎ Writes kv kv' p rs k answer
        accepted a k (some e) g = inl (finish_err kv kv' e answer g)
        accepted a (ok v) none g = inr (record {
          accepted = a;
          version = v;
          made = refl;
          result = put-accepted cd ns laws kv p rs v a ∙ g;
        })
        accepted a (err e) none g = inl (txn_failed p rs (new_signature rs) (err e) (λ v x. cc) g)
        accepted a panic none g = inl (txn_failed p rs (new_signature rs) panic (λ v x. cc) g)
