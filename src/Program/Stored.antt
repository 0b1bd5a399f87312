-- ===== src/Program/Stored.antt =====
-- A ruleset that becomes the latest one of its path, and the reply to its Put.
use regula.Prelude.{
  ℕ, zero, suc, ℤ, String, false, Option, none, some, ◌==◌, inl, inr, ◌≡◌, refl, ap, ◌∙◌,
}
use regula.Outcome.{ok}
use regula.Json.{Json}
use regula.Rule.Json.RoundTrip.{FindsKind}
use regula.Ruleset.{Ruleset}
use regula.Api.RoundTrip.{IsSendable, api_ruleset_json-roundtrip}
use regula.Api.Unmarshal.{unmarshal_api_ruleset}
use regula.Store.{RulesetEntry}
use regula.Store.Matching.{IsCompatible, match_with_decides}
use regula.Store.Etcd.{Codec, checksum}
use regula.Store.Etcd.Shelf.{Shelf, entry_of}
use regula.Store.Etcd.Refinement.{shelve}
use regula.Server.{answer_put, status_code, body_document}
use regula.Client.{is_retriable_error, rounds, try_from, try_n}
use regula.Client.Sending.{decoded, Reply, reply, do_request, try_request}
use regula.Program.{reply_of}

-- The ruleset becomes the latest one of the path.
abbrev pub IsUpdate : Codec → String → Option Shelf → Ruleset → Type 0
IsUpdate cd ns none rs = Unit
IsUpdate cd ns (some s) rs =
    ((checksum cd ns s.current == checksum cd ns rs) ≡ false) × IsCompatible s.first rs

abbrev pub first_of : Option Shelf → Ruleset → Ruleset
first_of none rs = rs
first_of (some s) rs = s.first

-- The shelf after it.
abbrev pub updated : Option Shelf → Ruleset → String → Shelf
updated o rs v = record { first = first_of o rs; version = v; current = rs }

pub shelve-updated :
    (cd : Codec) (ns p : String) (o : Option Shelf) (rs : Ruleset) (v : String)
    → IsUpdate cd ns o rs
    → shelve cd ns p o rs v ≡ (some (updated o rs v), (some (entry_of p (updated o rs v)), none))
shelve-updated cd ns p none rs v h = refl
shelve-updated cd ns p (some s) rs v (differs, same) = elim (match_with_decides s.first rs) [
  | inl (_, m) ↦ rw (differs, m) refl
  | inr (other, _) ↦ absurd (other same)
]

-- The reply with a stored entry.
pub reply_of-stored :
    (quote : String → String) (get_str : Json → String → String) (re : RulesetEntry)
    → FindsKind get_str
    → IsSendable re.rule_set
    → reply_of quote (unmarshal_api_ruleset get_str) (ok (answer_put (some re, none)))
      ≡ ok (reply 200 (decoded re))
unfolding answer_put body_document status_code
reply_of-stored quote get_str re finds h = rw (api_ruleset_json-roundtrip get_str finds re h) refl

-- The first reply counts if it is a success.
pub try_request-first :
    {A : Type 0} (zero_value : A) (replies : ℕ → Reply A) (retries : ℤ) (a : A)
    → replies 0 ≡ reply 200 (decoded a)
    → try_request zero_value replies retries ≡ (a, none)
unfolding try_request try_n rounds try_from is_retriable_error
try_request-first zero_value replies retries a h = go (rounds retries)
  where
    got : do_request zero_value (replies 0) ≡ (a, none)
    got = ap (do_request zero_value) h ∙ (unfold do_request in refl)

    go : (n : ℕ) → try_from (λ i. do_request zero_value (replies i)) 0 n ≡ (a, none)
    go zero = got
    go (suc n) = rw got refl
