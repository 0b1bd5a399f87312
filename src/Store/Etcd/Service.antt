-- ===== src/Store/Etcd/Service.antt =====
-- The RulesetService of store/etcd/rulesets.go as an implementation of the interface of
-- store/service.go, and how the server decodes a ruleset.
use regula.Prelude.{String, Option, List}
use regula.Outcome.{Error, Result, ok, ◌>>=◌}
use regula.Json.{Bytes}
use regula.Floats.{Floats}
use regula.Ruleset.{Ruleset}
use regula.Ruleset.Json.{unmarshal_ruleset}
use regula.Store.{RulesetService}
use regula.Store.Etcd.{KeyValues, Codec, read_json, put, eval, eval_version}
use regula.Store.Etcd.Listing.{RangeRequest, RangeResponse, Tokens, WatchMessage, list, watch}

-- What etcd and the random numbers answer while one request is served: the reads of ranges, the
-- messages of a watch and the error of its context, the version of a new ruleset, and the failure
-- of a transaction, if any.
pub record World : Type 0 where
  pub get_range : KeyValues → RangeRequest → Result RangeResponse
  pub messages : List WatchMessage
  pub watch_end : Error
  pub ksuid : Result String
  pub failure : Option Error

module _ (fl : Floats) (cd : Codec) (ns : String) where
  unfoldable pub etcd_service : Tokens → World → RulesetService fl KeyValues
  unfolding put eval eval_version list watch
  etcd_service tk w = record {
    list = λ kv prefix limit token. list cd ns tk (w.get_range kv) prefix limit token;
    watch = λ kv prefix revision. watch cd ns prefix w.watch_end w.messages;
    put = λ kv path rs. put cd ns kv path rs w.ksuid w.failure;
    eval = λ kv path ps. eval cd ns fl (ok kv) (ok kv) path ps;
    eval_version = λ kv path version ps. eval_version cd ns fl (ok kv) path version ps;
  }

  -- `json.NewDecoder(r.Body).Decode(&rs)`.
  unfoldable pub decode_ruleset : Bytes → Result Ruleset
  unfolding unmarshal_ruleset
  decode_ruleset b = read_json cd ns b >>= unmarshal_ruleset cd.get_str
