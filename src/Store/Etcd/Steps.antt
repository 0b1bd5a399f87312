-- ===== src/Store/Etcd/Steps.antt =====
-- The branches of Put's transaction in store/etcd/rulesets.go.
use regula.Json.{Bytes, raw, document}
use regula.Prelude.{
  String, true, false, none, some, eq_iff, ◌==◌, ◌≡◌, refl, sym, ap, ◌∙◌, inl, inr, Bool-cases,
}
use regula.Outcome.{ok, store_error, StoreError, ◌>>=◌}
use regula.Ruleset.{Ruleset}
use regula.Store.{Signature, new_signature, match_with}
use regula.Store.Documents.{entry_json, signature_json}
use regula.Store.Documents.Decoding.{IsPortable, signature_json-roundtrip, entry_json-roundtrip}
use regula.Store.Names.Validation.{IsAccepted, validate_ruleset_decides}
use regula.Store.Etcd.{
  KeyValues, Codec, stm_get, bytes_text, latest_ruleset_path, checksum, read_entry, check_signature,
  write_version, put_new, txn, finish_put, put,
}
use regula.Store.Etcd.Keys.{checksum_key, signature_key, latest_key, entry_key, key_path}
use regula.Store.Etcd.Shelf.{IsCodec, Shelf, entry_of, IsStocked, stm_get-held}

module _ (cd : Codec) (ns : String) where
  module _ (laws : IsCodec cd) where
    pub check_signature-blank : (sig : Signature) → check_signature cd ns (raw "") sig ≡ ok tt
    unfolding check_signature
    check_signature-blank sig = refl

    pub check_signature-signed :
        (first : Ruleset) (sig : Signature)
        → check_signature cd ns (document (signature_json (new_signature first))) sig
          ≡ match_with (new_signature first) sig
    unfolding check_signature
    check_signature-signed first sig =
        elim (Bool-cases (cd.print (signature_json (new_signature first)) == "")) [
          | inl e ↦ absurd (laws.printed _ ((eq_iff _ _).0 e))
          | inr e ↦ rw (e, signature_json-roundtrip first) refl
        ]

    pub read_entry-stored :
        (p : String) (s : Shelf)
        → IsPortable s.current
        → read_entry cd ns (document (entry_json (entry_of p s))) ≡ ok (entry_of p s)
    unfolding read_entry
    read_entry-stored p s h =
        rw (entry_json-roundtrip cd.get_str laws.finds p s.version s.current h) refl

    pub checksum-not_empty : (rs : Ruleset) → ("" == checksum cd ns rs) ≡ false
    unfolding checksum
    checksum-not_empty rs = elim (Bool-cases ("" == checksum cd ns rs)) [
      | inl e ↦ absurd (laws.digest _ (sym ((eq_iff _ _).0 e)))
      | inr e ↦ e
    ]

    module _ (kv : KeyValues) (p : String) (rs : Ruleset) (v : String) where
      pub txn-differs :
          (b : Bytes)
          → stm_get kv (key_path ns (checksum_key p)) ≡ b
          → (bytes_text cd ns b == checksum cd ns rs) ≡ false
          → txn cd ns kv p rs (new_signature rs) (ok v)
            ≡ put_new cd ns kv p rs (new_signature rs) (ok v)
      unfolding txn key_path
      txn-differs b h e = rw (h, e, txn) refl

      -- A ruleset with the latest one's checksum: the latest entry is read.
      pub txn-same :
          (s : Shelf)
          → IsStocked cd ns kv p s
          → (checksum cd ns s.current == checksum cd ns rs) ≡ true
          → txn cd ns kv p rs (new_signature rs) (ok v) ≡ (
              read_entry cd ns
                (stm_get kv (bytes_text cd ns (stm_get kv (latest_ruleset_path ns p))))
              >>= λ entry. ok (kv, (entry, some (store_error StoreError.not_modified))))
      unfolding txn key_path
      txn-same s h e = rw (stm_get-held cd ns kv (checksum_key p) _ h.summed, e, txn) refl

      pub txn-unchanged :
          (s : Shelf)
          → IsStocked cd ns kv p s
          → IsPortable s.current
          → (checksum cd ns s.current == checksum cd ns rs) ≡ true
          → txn cd ns kv p rs (new_signature rs) (ok v)
            ≡ ok (kv, (entry_of p s, some (store_error StoreError.not_modified)))
      unfolding key_path
      txn-unchanged s h portable e =
          txn-same s h e
          ∙ rw
              (
                stm_get-held cd ns kv (latest_key p) _ h.pointed,
                stm_get-held cd ns kv (entry_key p s.version) _ h.stored,
                read_entry-stored p s portable,
              )
              refl

      pub put_new-when :
          (b : Bytes)
          → stm_get kv (key_path ns (signature_key p)) ≡ b
          → put_new cd ns kv p rs (new_signature rs) (ok v) ≡ (
              check_signature cd ns b (new_signature rs) >>= λ _. ok (
                (write_version cd ns kv p rs (new_signature rs) v).0,
                ((write_version cd ns kv p rs (new_signature rs) v).1, none),
              ))
      unfolding put_new key_path
      put_new-when b h =
          ap
            (λ x. check_signature cd ns x (new_signature rs) >>= λ _. ok (
              (write_version cd ns kv p rs (new_signature rs) v).0,
              ((write_version cd ns kv p rs (new_signature rs) v).1, none),
            ))
            h

      pub put-accepted :
          IsAccepted p rs
          → put cd ns kv p rs (ok v) none
            ≡ finish_put cd ns kv (txn cd ns kv p rs (new_signature rs) (ok v))
      unfolding put
      put-accepted a = elim (validate_ruleset_decides p rs) [
        | inl (_, e) ↦ rw e refl
        | inr (not, _) ↦ absurd (not a)
      ]
