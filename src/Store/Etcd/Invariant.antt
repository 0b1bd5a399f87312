-- ===== src/Store/Etcd/Invariant.antt =====
-- The states that calls of Put of store/etcd/rulesets.go lead to from an empty store.
use regula.Prelude.{
  String, true, Option, none, some, List, [], ◌∷◌, lookup, eq_iff, ◌==◌, ◌≡◌, ◌≢◌, refl, sym, subst,
  ap, ◌∙◌, inl, inr, All, All-map, Bool-cases,
}
use regula.Outcome.{Error, Result, ok}
use regula.Rule.Expr.{Param}
use regula.Ruleset.{Ruleset, ruleset_params}
use regula.Store.{RulesetEntry}
use regula.Store.Matching.{HasParam, IsCompatible, match_with_decides}
use regula.Store.Names.Validation.{IsPath, IsAccepted}
use regula.Store.Etcd.{KeyValues, Codec, checksum, finish_put, put}
use regula.Store.Etcd.Parts.{IsPart}
use regula.Store.Etcd.Keys.{Key, IsKey}
use regula.Store.Etcd.Shelf.{IsCodec, path_of, Shelf, held, IsStocked, Lies, Lies-agree}
use regula.Store.Etcd.Steps.{put-accepted, txn-same}
use regula.Store.Etcd.Refinement.{shelve, Leaves, put_first, put_later}
use regula.Store.Etcd.Ending.{Writes, finish_same, put-cases}

module _ (cd : Codec) (ns : String) where
  -- The states after any calls of Put, whatever their arguments and however they end, with
  -- versions that are one ordinary part of a path.
  pub data Reachable : KeyValues → Type 0 where
    start : Reachable []
    after :
        {kv kv' : KeyValues} (p : String) (rs : Ruleset) (ksuid : Result String)
        (failure : Option Error) (answer : Option RulesetEntry × Option Error)
        → Reachable kv
        → ((v : String) → ksuid ≡ ok v → IsPart v)
        → put cd ns kv p rs ksuid failure ≡ ok (kv', answer)
        → Reachable kv'

-- Whose parameters are its own, by name and type.
HasParam-own : (ps : List Param) → All (λ p. HasParam p.name p.type ps) ps
HasParam-own [] = tt
HasParam-own (p ∷ ps) = (inl (refl, refl), All-map (λ q. λ h. inr h) ps (HasParam-own ps))

-- The latest ruleset matches the signature that the first one set.
abbrev pub IsCompatibleShelf : Option Shelf → Type 0
IsCompatibleShelf none = Unit
IsCompatibleShelf (some s) = IsCompatible s.first s.current

shelve-IsCompatibleShelf :
    (cd : Codec) (ns p v : String) (rs : Ruleset) (o : Option Shelf)
    → IsCompatibleShelf o
    → IsCompatibleShelf (shelve cd ns p o rs v).0
shelve-IsCompatibleShelf cd ns p v rs none h = (refl, HasParam-own (ruleset_params rs))
shelve-IsCompatibleShelf cd ns p v rs (some s) h =
    elim (Bool-cases (checksum cd ns s.current == checksum cd ns rs)) [
      | inl e ↦ rw e h
      | inr e ↦ rw e (elim (match_with_decides s.first rs) [
        | inl (c, m) ↦ rw m c
        | inr (_, (f, c, r, m)) ↦ rw m h
      ])
    ]

-- A path has a shelf, or nothing, in the state.
abbrev pub IsTidy : Codec → String → KeyValues → String → Type 0
IsTidy cd ns kv p = (o : Option Shelf) × (Lies cd ns kv p o × IsCompatibleShelf o)

module _ (cd : Codec) (ns : String) (laws : IsCodec cd) (kv : KeyValues) (q : String) (rs : Ruleset)
    (v : String) (a : IsAccepted q rs) (hv : IsPart v) where
  -- The path has this shelf, and the keys of every other path hold what they held.
  abbrev IsLeft : KeyValues → Option Shelf → Type 0
  IsLeft kv' o =
      Lies cd ns kv' q o
      × ((k : Key) → IsKey k → path_of k ≢ q → held cd ns kv' k ≡ held cd ns kv k)

  module _ {kv' : KeyValues} {answer : Option RulesetEntry × Option Error}
      (done : put cd ns kv q rs (ok v) none ≡ ok (kv', answer)) where
    Leaves-IsLeft :
        {r : Option Shelf × (Option RulesetEntry × Option Error)}
        → Leaves cd ns kv q r (put cd ns kv q rs (ok v) none)
        → IsLeft kv' r.0
    Leaves-IsLeft l =
        let same : l.state ≡ kv' = cc (l.returned, done) in
        subst (λ k. IsLeft k _) same (l.lies, l.elsewhere)

    -- Put of a ruleset with the latest one's checksum, even where the latest entry cannot be read.
    unchanged :
        (s : Shelf)
        → IsStocked cd ns kv q s
        → (checksum cd ns s.current == checksum cd ns rs) ≡ true
        → kv ≡ kv'
    unchanged s h e = finish_same cd ns kv kv' answer _ (
        sym (ap (finish_put cd ns kv) (txn-same cd ns laws kv q rs v s h e))
        ∙ sym (put-accepted cd ns laws kv q rs v a)
        ∙ done)

    put-IsLeft : (o : Option Shelf) → Lies cd ns kv q o → IsLeft kv' (shelve cd ns q o rs v).0
    put-IsLeft none h = Leaves-IsLeft (put_first cd ns laws kv q rs v a hv h)
    put-IsLeft (some s) h = elim (Bool-cases (checksum cd ns s.current == checksum cd ns rs)) [
      | inl e ↦ rw e (subst (λ k. IsLeft k (some s)) (unchanged s h e) (h, λ k hk ne. refl))
      | inr e ↦ rw e (Leaves-IsLeft (put_later cd ns laws kv q rs v a hv s h e))
    ]

    put-IsTidy :
        (p : String) → IsPath p → IsTidy cd ns kv q → IsTidy cd ns kv p → IsTidy cd ns kv' p
    put-IsTidy p hp (oq, (hq, cq)) (op, (h, c)) =
        let (lies, elsewhere) = put-IsLeft oq hq in
        elim (Bool-cases (q == p)) [
          | inl e ↦
              subst (IsTidy cd ns kv') ((eq_iff q p).0 e)
                ((shelve cd ns q oq rs v).0, (lies, shelve-IsCompatibleShelf cd ns q v rs oq cq))
          | inr e ↦ (
            op,
            (
              Lies-agree cd ns kv kv' p op hp
                  (λ k hk at. elsewhere k hk (λ x. cc (e, (eq_iff q p).1 (sym x ∙ at)))) h,
              c,
            ),
          )
        ]

-- In every state that calls of Put lead to from an empty store, whatever their paths and rulesets and
-- however they end, each path that Put accepts has nothing under it, or a signature, a checksum, a
-- pointer to the latest version and that version's entry, which belong together; and the latest
-- ruleset matches the signature that the first one set. Versions are one ordinary part of a path.
pub Reachable-IsTidy :
    (cd : Codec) (ns : String) (kv : KeyValues) (p : String)
    → IsCodec cd
    → Reachable cd ns kv
    → IsPath p
    → IsTidy cd ns kv p
unfolding lookup
Reachable-IsTidy cd ns kv p laws start hp =
    (none, (record { no_signature = refl; no_checksum = refl; no_latest = refl }, tt))
Reachable-IsTidy cd ns kv p laws (after {kv = old} q rs ksuid failure answer r hv done) hp =
    elim (put-cases cd ns old kv answer laws q rs ksuid failure done) [
      | inl same ↦ subst (λ k. IsTidy cd ns k p) same (Reachable-IsTidy cd ns old p laws r hp)
      | inr w ↦
          put-IsTidy cd ns laws old q rs (Writes.version w) (Writes.accepted w)
            (hv (Writes.version w) (Writes.made w)) (Writes.result w) p hp
            (Reachable-IsTidy cd ns old q laws r (IsAccepted.path_name (Writes.accepted w)))
            (Reachable-IsTidy cd ns old p laws r hp)
    ]
