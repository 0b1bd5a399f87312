-- ===== src/Tests/Etcd.antt =====
-- The store in etcd: a first Put from the empty store, and the theorems about it.
use regula.Prelude.{String, none, some, [], lookup, ◌≡◌, refl, subst}
use regula.Outcome.{ok}
use regula.Paths.{split}
use regula.Store.Names.Validation.{IsAccepted}
use regula.Store.Etcd.{put, eval, eval_version}
use regula.Store.Etcd.Parts.{IsPart}
use regula.Store.Etcd.Shelf.{Shelf, IsBare}
use regula.Store.Etcd.Refinement.{shelve, Simulates, put_refines}
use regula.Store.Etcd.Reading.{eval_shelf, eval_refines}
use regula.Store.Etcd.Invariant.{start, after, IsTidy, Reachable-IsTidy}
use regula.Tests.Samples.{whole_floats, sample, given_params}
use regula.Tests.Documents.{plain, plain-IsCodec, sample-IsPortable, sample-IsAccepted}

pub v1-IsPart : IsPart "v1"
unfolding split
v1-IsPart = (((λ e. cc), (λ e. cc), (λ e. cc)), refl)

pub empty-IsBare : IsBare plain "regula" [] "europe/visitors"
unfolding lookup
empty-IsBare = record { no_signature = refl; no_checksum = refl; no_latest = refl }

put_refines_example :
    Simulates plain "regula" [] "europe/visitors"
      (shelve plain "regula" "europe/visitors" none sample "v1")
      (put plain "regula" [] "europe/visitors" sample (ok "v1") none)
put_refines_example =
    put_refines plain "regula" [] "europe/visitors" sample "v1" none plain-IsCodec sample-IsAccepted
      v1-IsPart sample-IsPortable empty-IsBare

-- The state after the first Put.
pub first_put :
    Simulates plain "regula" [] "europe/visitors"
      (shelve plain "regula" "europe/visitors" none sample "v1")
      (put plain "regula" [] "europe/visitors" sample (ok "v1") none)
first_put =
    put_refines plain "regula" [] "europe/visitors" sample "v1" none plain-IsCodec sample-IsAccepted
      v1-IsPart sample-IsPortable empty-IsBare

ok-inj : {v : String} → ok "v1" ≡ ok v → "v1" ≡ v
ok-inj e = cc

Reachable-IsTidy_example : IsTidy plain "regula" (Simulates.state first_put) "europe/visitors"
Reachable-IsTidy_example =
    Reachable-IsTidy plain "regula" (Simulates.state first_put) "europe/visitors" plain-IsCodec
      (after "europe/visitors" sample (ok "v1") none
        (shelve plain "regula" "europe/visitors" none sample "v1").1 start
        (λ v e. subst IsPart (ok-inj e) v1-IsPart) (Simulates.returned first_put))
      (IsAccepted.path_name sample-IsAccepted)

abbrev pub visitors : Shelf
visitors = record { first = sample; version = "v1"; current = sample }

eval_refines_example :
    (eval plain "regula" whole_floats
        (ok (Simulates.state first_put))
        (ok (Simulates.state first_put))
        "europe/visitors"
        (some given_params)
      ≡ eval_shelf whole_floats (some given_params) (some visitors))
    × (eval_version plain "regula" whole_floats
          (ok (Simulates.state first_put))
          "europe/visitors"
          "v1"
          (some given_params)
        ≡ eval_shelf whole_floats (some given_params) (some visitors))
eval_refines_example =
    eval_refines whole_floats plain "regula" (Simulates.state first_put) (Simulates.state first_put)
      "europe/visitors" (some visitors) (some given_params) plain-IsCodec
      (IsAccepted.path_name sample-IsAccepted) (Simulates.holds first_put) refl
