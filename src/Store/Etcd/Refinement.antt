-- ===== src/Store/Etcd/Refinement.antt =====
-- Put of store/etcd/rulesets.go against one shelf for each path.
use regula.Json.{raw, document}
use regula.Prelude.{
  String, true, false, Option, none, some, if◌then◌else◌, ◌==◌, ◌≡◌, ◌≢◌, refl, sym, ap, ◌∙◌, inl,
  inr, Bool-cases,
}
use regula.Outcome.{Error, Result, ok, err, panic, validation_error, store_error, StoreError, ◌>>=◌}
use regula.Ruleset.{Ruleset}
use regula.Store.{RulesetEntry, new_signature, match_with, is_validation_error}
use regula.Store.Matching.{match_with_decides}
use regula.Store.Documents.{zero_entry, signature_json}
use regula.Store.Documents.Decoding.{IsPortable}
use regula.Store.Names.Validation.{IsAccepted}
use regula.Store.Etcd.{
  KeyValues, Codec, checksum, write_signature, write_version, finish_put, Answer, put,
}
use regula.Store.Etcd.Parts.{IsPart}
use regula.Store.Etcd.Keys.{Key, checksum_key, signature_key, IsKey}
use regula.Store.Etcd.Shelf.{
  IsCodec, path_of, Shelf, entry_of, held, IsBare, IsStocked, IsPortableShelf, Lies, Holds,
  Lies-Holds, written, write_version-written, written-elsewhere, written-IsStocked, stm_get-held,
  stm_get-none, write_signature-signed, write_signature-kept, write_signature-elsewhere,
}
use regula.Store.Etcd.Steps.{
  check_signature-blank, check_signature-signed, checksum-not_empty, txn-differs, txn-unchanged,
  put_new-when, put-accepted,
}

-- A ruleset that is put on a shelf, for the outcome of the test of its signature.
abbrev reshelve :
    String
    → Shelf
    → Ruleset
    → String
    → Result (Unit {0})
    → Option Shelf × (Option RulesetEntry × Option Error)
reshelve p s rs v (ok _) =
    let t : Shelf = record { first = s.first; version = v; current = rs } in
    (some t, (some (entry_of p t), none))
reshelve p s rs v (err e) = (some s, (some zero_entry, some e))
reshelve p s rs v panic = (some s, (none, none))

module _ (cd : Codec) (ns : String) where
  -- What Put means for the shelf of its path: the first ruleset sets the signature, one with the
  -- latest one's checksum changes nothing, one that matches the signature becomes the latest one.
  abbrev pub shelve :
      String → Option Shelf → Ruleset → String → Option Shelf × (Option RulesetEntry × Option Error)
  shelve p none rs v =
      let t : Shelf = record { first = rs; version = v; current = rs } in
      (some t, (some (entry_of p t), none))
  shelve p (some s) rs v =
      if checksum cd ns s.current == checksum cd ns rs
      then (some s, (some (entry_of p s), some (store_error StoreError.not_modified)))
      else reshelve p s rs v (match_with (new_signature s.first) (new_signature rs))

  -- The outcome is what the shelf says, the path's keys hold the new shelf, and those of the other
  -- paths hold what they held.
  pub record Simulates (kv : KeyValues) (p : String)
      (r : Option Shelf × (Option RulesetEntry × Option Error)) (out : Result (Answer cd ns))
      : Type 0 where
    pub state : KeyValues
    pub returned : out ≡ ok (state, r.1)
    pub holds : Holds cd ns state p r.0
    pub elsewhere : (k : Key) → IsKey k → path_of k ≢ p → held cd ns state k ≡ held cd ns kv k

  -- The same of rulesets that their documents may not give back.
  pub record Leaves (kv : KeyValues) (p : String)
      (r : Option Shelf × (Option RulesetEntry × Option Error)) (out : Result (Answer cd ns))
      : Type 0 where
    pub state : KeyValues
    pub returned : out ≡ ok (state, r.1)
    pub lies : Lies cd ns state p r.0
    pub elsewhere : (k : Key) → IsKey k → path_of k ≢ p → held cd ns state k ≡ held cd ns kv k

  Leaves-Simulates :
      (kv : KeyValues) (p : String) (r : Option Shelf × (Option RulesetEntry × Option Error))
      (out : Result (Answer cd ns))
      → IsPortableShelf r.0
      → Leaves kv p r out
      → Simulates kv p r out
  Leaves-Simulates kv p r out portable l = record {
    state = l.state;
    returned = l.returned;
    holds = Lies-Holds cd ns l.state p r.0 l.lies portable;
    elsewhere = l.elsewhere;
  }

  module _ (laws : IsCodec cd) (kv : KeyValues) (p : String) (rs : Ruleset) (v : String)
      (a : IsAccepted p rs) (hv : IsPart v) where
    -- Where the test of the signature succeeds, the new version is written.
    module _ (kvS : KeyValues) (first : Ruleset)
        (same : write_signature cd ns kv p (new_signature rs) ≡ kvS)
        (signed : held cd ns kvS (signature_key p)
          ≡ some (document (signature_json (new_signature first)))) where
      fresh : Shelf
      fresh = record { first = first; version = v; current = rs }

      put_new-Leaves :
          put cd ns kv p rs (ok v) none
            ≡ finish_put cd ns kv (
                ok (
                  (write_version cd ns kv p rs (new_signature rs) v).0,
                  ((write_version cd ns kv p rs (new_signature rs) v).1, none),
                ))
          → Leaves kv p
              (some fresh, (some (entry_of p fresh), none))
              (put cd ns kv p rs (ok v) none)
      unfolding finish_put fresh
      put_new-Leaves e = record {
        state = written cd ns p v rs a.path_name hv kvS;
        returned =
            e
            ∙ ap (λ w. ok (w.0, (some w.1, none)))
                (write_version-written cd ns p v rs a.path_name hv kv (new_signature rs))
            ∙ ap (λ k. ok (written cd ns p v rs a.path_name hv k, (some (entry_of p fresh), none)))
                same;
        lies = written-IsStocked cd ns p v rs a.path_name hv kvS first signed;
        elsewhere = λ k hk ne.
            written-elsewhere cd ns p v rs a.path_name hv kvS k hk ne
            ∙ ap (λ m. held cd ns m k) (sym same)
            ∙ write_signature-elsewhere cd ns kv p a.path_name (new_signature rs) k hk ne;
      }

    pub put_first :
        IsBare cd ns kv p → Leaves kv p (shelve p none rs v) (put cd ns kv p rs (ok v) none)
    unfolding finish_put fresh
    put_first h =
        put_new-Leaves (write_signature cd ns kv p (new_signature rs)) rs refl
          (write_signature-signed cd ns kv p a.path_name (new_signature rs) h.no_signature)
          (put-accepted cd ns laws kv p rs v a
            ∙ ap (finish_put cd ns kv) (
                txn-differs cd ns laws kv p rs v (raw "")
                  (stm_get-none cd ns kv (checksum_key p) h.no_checksum)
                  (checksum-not_empty cd ns laws rs)
                ∙ put_new-when cd ns laws kv p rs v (raw "")
                    (stm_get-none cd ns kv (signature_key p) h.no_signature)
                ∙ ap
                    (λ r. r >>= λ _. ok (
                      (write_version cd ns kv p rs (new_signature rs) v).0,
                      ((write_version cd ns kv p rs (new_signature rs) v).1, none),
                    ))
                    (check_signature-blank cd ns laws (new_signature rs))))

    -- Where the shelf holds the same checksum, nothing changes.
    put_unchanged :
        (s : Shelf)
        → IsStocked cd ns kv p s
        → IsPortable s.current
        → (checksum cd ns s.current == checksum cd ns rs) ≡ true
        → Simulates kv p
            (some s, (some (entry_of p s), some (store_error StoreError.not_modified)))
            (put cd ns kv p rs (ok v) none)
    unfolding finish_put
    put_unchanged s h portable e = record {
      state = kv;
      returned =
          put-accepted cd ns laws kv p rs v a
          ∙ ap (finish_put cd ns kv) (txn-unchanged cd ns laws kv p rs v s h portable e);
      holds = (h, portable);
      elsewhere = λ k hk ne. refl;
    }

    -- Where it differs, the signature decides.
    put-tested :
        (s : Shelf)
        → IsStocked cd ns kv p s
        → (checksum cd ns s.current == checksum cd ns rs) ≡ false
        → (r : Result (Unit {0})) → match_with (new_signature s.first) (new_signature rs) ≡ r
        → put cd ns kv p rs (ok v) none
          ≡ finish_put cd ns kv (
              r >>= λ _. ok (
                (write_version cd ns kv p rs (new_signature rs) v).0,
                ((write_version cd ns kv p rs (new_signature rs) v).1, none),
              ))
    put-tested s h e r m =
        put-accepted cd ns laws kv p rs v a
        ∙ ap (finish_put cd ns kv) (
            txn-differs cd ns laws kv p rs v _ (stm_get-held cd ns kv (checksum_key p) _ h.summed) e
            ∙ put_new-when cd ns laws kv p rs v _
                (stm_get-held cd ns kv (signature_key p) _ h.signed)
            ∙ ap
                (λ x. x >>= λ _. ok (
                  (write_version cd ns kv p rs (new_signature rs) v).0,
                  ((write_version cd ns kv p rs (new_signature rs) v).1, none),
                ))
                (check_signature-signed cd ns laws s.first (new_signature rs) ∙ m))

    pub put_later :
        (s : Shelf)
        → IsStocked cd ns kv p s
        → (checksum cd ns s.current == checksum cd ns rs) ≡ false
        → Leaves kv p
            (reshelve p s rs v (match_with (new_signature s.first) (new_signature rs)))
            (put cd ns kv p rs (ok v) none)
    unfolding finish_put fresh is_validation_error
    put_later s h e = elim (match_with_decides s.first rs) [
      | inl (_, m) ↦ rw m (
          put_new-Leaves kv s.first
            (write_signature-kept cd ns kv p a.path_name (new_signature rs) _ laws h.signed)
            h.signed (put-tested s h e (ok tt) m))
      | inr (_, (f, c, r, m)) ↦ rw m (record {
        state = kv;
        returned = put-tested s h e (err (validation_error f c r)) m;
        lies = h;
        elsewhere = λ k hk ne. refl;
      })
    ]

    reshelve-IsPortableShelf :
        (s : Shelf) (r : Result (Unit {0}))
        → IsPortable rs
        → IsPortable s.current
        → IsPortableShelf (reshelve p s rs v r).0
    reshelve-IsPortableShelf s (ok _) new old = new
    reshelve-IsPortableShelf s (err e) new old = old
    reshelve-IsPortableShelf s panic new old = old

    put-Simulates :
        (o : Option Shelf)
        → IsPortable rs
        → Holds cd ns kv p o
        → Simulates kv p (shelve p o rs v) (put cd ns kv p rs (ok v) none)
    put-Simulates none portable h = Leaves-Simulates kv p _ _ portable (put_first h)
    put-Simulates (some s) portable (h, old) =
        elim (Bool-cases (checksum cd ns s.current == checksum cd ns rs)) [
          | inl e ↦ rw e (put_unchanged s h old e)
          | inr e ↦
              let tested = match_with (new_signature s.first) (new_signature rs) in
              rw e (
                Leaves-Simulates kv p _ _ (reshelve-IsPortableShelf s tested portable old)
                  (put_later s h e))
        ]

-- A Put of an accepted ruleset does on the state of etcd what it means for the shelf of its path:
-- it returns the entry and the error that the shelf says, leaves the new shelf under the path, and
-- leaves the values under the keys of every other path as they were. This holds for a ruleset that
-- its document gives back, for what is under the path likewise, and for a version that is one
-- ordinary part of a path, where no call of etcd fails.
pub put_refines :
    (cd : Codec) (ns : String) (kv : KeyValues) (p : String) (rs : Ruleset) (v : String)
    (o : Option Shelf)
    → IsCodec cd
    → IsAccepted p rs
    → IsPart v
    → IsPortable rs
    → Holds cd ns kv p o
    → Simulates cd ns kv p (shelve cd ns p o rs v) (put cd ns kv p rs (ok v) none)
put_refines cd ns kv p rs v o laws a hv portable h =
    put-Simulates cd ns laws kv p rs v a hv o portable h
