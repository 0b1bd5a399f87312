-- ===== src/Store/Etcd/Shelf.antt =====
-- What the keys of one path hold, and what the writes of Put change of it.
use regula.Json.{Bytes, raw, document}
use regula.Prelude.{
  String, Option, none, some, lookup, insert, lookup-insert, eq_iff, eq_refl, if◌then◌else◌, ◌==◌,
  ◌≡◌, ◌≢◌, refl, sym, ap, ◌∙◌, inl, inr, Bool-cases,
}
use regula.Json.{Json}
use regula.Rule.Json.RoundTrip.{FindsKind}
use regula.Ruleset.{Ruleset}
use regula.Store.{RulesetEntry, Signature, new_signature}
use regula.Store.Documents.{entry_json, signature_json}
use regula.Store.Documents.Decoding.{IsPortable}
use regula.Store.Names.Validation.{IsPath}
use regula.Store.Etcd.{
  KeyValues, Codec, stm_get, bytes_text, checksum, write_signature, write_version,
}
use regula.Store.Etcd.Parts.{IsPart}
use regula.Store.Etcd.Keys.{
  Key, checksum_key, signature_key, latest_key, entry_key, key_path, IsKey, key_path-inj,
}

-- What the functions of other packages are known to do: no JSON text and no digest is empty, and
-- the member "kind" is found.
pub record IsCodec (cd : Codec) : Type 0 where
  pub printed : (j : Json) → cd.print j ≢ ""
  pub digest : (s : String) → cd.md5 s ≢ ""
  pub finds : FindsKind cd.get_str

abbrev pub path_of : Key → String
path_of (checksum_key p) = p
path_of (signature_key p) = p
path_of (latest_key p) = p
path_of (entry_key p v) = p

-- The first ruleset of a path, which set its signature, and the latest one with its version.
pub record Shelf : Type 0 where
  pub first : Ruleset
  pub version : String
  pub current : Ruleset

abbrev pub IsPortableShelf : Option Shelf → Type 0
IsPortableShelf none = Unit
IsPortableShelf (some s) = IsPortable s.current

abbrev pub entry_of : String → Shelf → RulesetEntry
entry_of p s = record { path = p; version = s.version; rule_set = some s.current }

module _ (cd : Codec) (ns : String) where
  abbrev pub held : KeyValues → Key → Option Bytes
  held kv k = lookup (key_path ns k) kv

  pub record IsBare (kv : KeyValues) (p : String) : Type 0 where
    pub no_signature : held kv (signature_key p) ≡ none
    pub no_checksum : held kv (checksum_key p) ≡ none
    pub no_latest : held kv (latest_key p) ≡ none

  pub record IsStocked (kv : KeyValues) (p : String) (s : Shelf) : Type 0 where
    pub signed :
        held kv (signature_key p) ≡ some (document (signature_json (new_signature s.first)))
    pub summed : held kv (checksum_key p) ≡ some (raw (checksum cd ns s.current))
    pub pointed : held kv (latest_key p) ≡ some (raw (key_path ns (entry_key p s.version)))
    pub stored : held kv (entry_key p s.version) ≡ some (document (entry_json (entry_of p s)))
    pub named : IsPart s.version

  -- The state has this shelf under the path, or nothing.
  abbrev pub Lies : KeyValues → String → Option Shelf → Type 0
  Lies kv p none = IsBare kv p
  Lies kv p (some s) = IsStocked kv p s

  -- The same, where the latest ruleset is one that its document gives back.
  abbrev pub Holds : KeyValues → String → Option Shelf → Type 0
  Holds kv p none = IsBare kv p
  Holds kv p (some s) = IsStocked kv p s × IsPortable s.current

  pub Lies-Holds :
      (kv : KeyValues) (p : String) (o : Option Shelf)
      → Lies kv p o
      → IsPortableShelf o
      → Holds kv p o
  Lies-Holds kv p none h portable = h
  Lies-Holds kv p (some s) h portable = (h, portable)

  -- A state with the same values under a path's keys has the same.
  pub Lies-agree :
      (kv kv' : KeyValues) (p : String) (o : Option Shelf)
      → IsPath p
      → ((k : Key) → IsKey k → path_of k ≡ p → held kv' k ≡ held kv k)
      → Lies kv p o
      → Lies kv' p o
  Lies-agree kv kv' p none hp same h = record {
    no_signature = same (signature_key p) hp refl ∙ h.no_signature;
    no_checksum = same (checksum_key p) hp refl ∙ h.no_checksum;
    no_latest = same (latest_key p) hp refl ∙ h.no_latest;
  }
  Lies-agree kv kv' p (some s) hp same h = record {
    signed = same (signature_key p) hp refl ∙ h.signed;
    summed = same (checksum_key p) hp refl ∙ h.summed;
    pointed = same (latest_key p) hp refl ∙ h.pointed;
    stored = same (entry_key p s.version) (hp, h.named) refl ∙ h.stored;
    named = h.named;
  }

  held-insert :
      (kv : KeyValues) (k : Key) (x : Bytes) → held (insert (key_path ns k) x kv) k ≡ some x
  held-insert kv k x =
      lookup-insert (key_path ns k) (key_path ns k) x kv ∙ rw (eq_refl (key_path ns k)) refl

  held-other :
      (kv : KeyValues) (k l : Key) (x : Bytes)
      → IsKey k
      → IsKey l
      → l ≢ k
      → held (insert (key_path ns l) x kv) k ≡ held kv k
  held-other kv k l x hk hl ne =
      lookup-insert (key_path ns l) (key_path ns k) x kv
      ∙ (elim (Bool-cases (key_path ns l == key_path ns k)) [
        | inl e ↦ absurd (ne (key_path-inj ns l k hl hk ((eq_iff _ _).0 e)))
        | inr e ↦ rw e refl
      ])

  -- The writes of a new version, after the signature's.
  module _ (p version : String) (rs : Ruleset) (hp : IsPath p) (hv : IsPart version) where
    abbrev made : Shelf → Shelf
    made s = record s { version = version; current = rs }

    abbrev new_entry : RulesetEntry
    new_entry = record { path = p; version = version; rule_set = some rs }

    abbrev summed_state : KeyValues → KeyValues
    summed_state kv = insert (key_path ns (checksum_key p)) (raw (checksum cd ns rs)) kv

    abbrev stored_state : KeyValues → KeyValues
    stored_state kv =
        insert (key_path ns (entry_key p version)) (document (entry_json new_entry))
          (summed_state kv)

    abbrev pub written : KeyValues → KeyValues
    written kv =
        insert (key_path ns (latest_key p)) (raw (key_path ns (entry_key p version)))
          (stored_state kv)

    pub write_version-written :
        (kv : KeyValues) (sig : Signature)
        → write_version cd ns kv p rs sig version
          ≡ (written (write_signature cd ns kv p sig), new_entry)
    unfolding write_version key_path
    write_version-written kv sig = refl

    pub written-elsewhere :
        (kv : KeyValues) (k : Key) → IsKey k → path_of k ≢ p → held (written kv) k ≡ held kv k
    written-elsewhere kv k hk ne =
        held-other (stored_state kv) k (latest_key p) _ hk hp (λ e. ne (ap path_of (sym e)))
        ∙ held-other (summed_state kv) k (entry_key p version) _ hk (hp, hv)
            (λ e. ne (ap path_of (sym e)))
        ∙ held-other kv k (checksum_key p) _ hk hp (λ e. ne (ap path_of (sym e)))

    pub written-IsStocked :
        (kv : KeyValues) (first : Ruleset)
        → held kv (signature_key p) ≡ some (document (signature_json (new_signature first)))
        → IsStocked (written kv) p (record { first = first; version = version; current = rs })
    written-IsStocked kv first signed = record {
      signed =
          held-other (stored_state kv) (signature_key p) (latest_key p) _ hp hp (λ e. cc)
          ∙ held-other (summed_state kv) (signature_key p) (entry_key p version) _ hp (hp, hv)
              (λ e. cc)
          ∙ held-other kv (signature_key p) (checksum_key p) _ hp hp (λ e. cc)
          ∙ signed;
      summed =
          held-other (stored_state kv) (checksum_key p) (latest_key p) _ hp hp (λ e. cc)
          ∙ held-other (summed_state kv) (checksum_key p) (entry_key p version) _ hp (hp, hv)
              (λ e. cc)
          ∙ held-insert kv (checksum_key p) _;
      pointed = held-insert (stored_state kv) (latest_key p) _;
      stored =
          held-other (stored_state kv) (entry_key p version) (latest_key p) _ (hp, hv) hp (λ e. cc)
          ∙ held-insert (summed_state kv) (entry_key p version) _;
      named = hv;
    }

  pub stm_get-held :
      (kv : KeyValues) (k : Key) (b : Bytes) → held kv k ≡ some b → stm_get kv (key_path ns k) ≡ b
  stm_get-held kv k b h = rw (h, stm_get) refl

  pub stm_get-none :
      (kv : KeyValues) (k : Key) → held kv k ≡ none → stm_get kv (key_path ns k) ≡ raw ""
  stm_get-none kv k h = rw (h, stm_get) refl

  -- The first signature is written, and a later one is not.
  module _ (kv : KeyValues) (p : String) (hp : IsPath p) where
    write_signature-when :
        (sig : Signature) (b : Bytes)
        → stm_get kv (key_path ns (signature_key p)) ≡ b
        → write_signature cd ns kv p sig ≡ (
            if bytes_text cd ns b == ""
            then insert (key_path ns (signature_key p)) (document (signature_json sig)) kv
            else kv)
    unfolding write_signature key_path
    write_signature-when sig b h =
        ap
          (λ x.
            if bytes_text cd ns x == ""
            then insert (key_path ns (signature_key p)) (document (signature_json sig)) kv
            else kv)
          h

    pub write_signature-bare :
        (sig : Signature)
        → held kv (signature_key p) ≡ none
        → write_signature cd ns kv p sig
          ≡ insert (key_path ns (signature_key p)) (document (signature_json sig)) kv
    write_signature-bare sig h =
        write_signature-when sig (raw "") (stm_get-none kv (signature_key p) h)

    pub write_signature-signed :
        (sig : Signature)
        → held kv (signature_key p) ≡ none
        → held (write_signature cd ns kv p sig) (signature_key p)
          ≡ some (document (signature_json sig))
    write_signature-signed sig h =
        ap (λ k. held k (signature_key p)) (write_signature-bare sig h)
        ∙ held-insert kv (signature_key p) _

    pub write_signature-kept :
        (sig : Signature) (j : Json)
        → IsCodec cd
        → held kv (signature_key p) ≡ some (document j)
        → write_signature cd ns kv p sig ≡ kv
    write_signature-kept sig j laws h =
        write_signature-when sig (document j) (stm_get-held kv (signature_key p) (document j) h)
        ∙ (elim (Bool-cases (cd.print j == "")) [
          | inl e ↦ absurd (laws.printed j ((eq_iff _ _).0 e))
          | inr e ↦ rw e refl
        ])

    pub write_signature-elsewhere :
        (sig : Signature) (k : Key)
        → IsKey k
        → path_of k ≢ p
        → held (write_signature cd ns kv p sig) k ≡ held kv k
    unfolding write_signature key_path
    write_signature-elsewhere sig k hk ne =
        ap (λ m. held m k) (write_signature-when sig _ refl)
        ∙ (elim (Bool-cases (bytes_text cd ns (stm_get kv (key_path ns (signature_key p))) == "")) [
          | inl e ↦
              rw e (held-other kv k (signature_key p) _ hk hp (λ same. ne (ap path_of (sym same))))
          | inr e ↦ rw e refl
        ])
