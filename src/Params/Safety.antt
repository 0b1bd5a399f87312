-- ===== src/Params/Safety.antt =====
-- The parameters of the program panic at no name: the map of param.go and the query of
-- api/server/param.go.
use regula.Prelude.{String, Option, none, some, List, lookup}
use regula.Outcome.{Result, ok, err, panic, ◌>>=◌}
use regula.Strconv.{parse_bool, parse_int, checked}
use regula.Floats.{Floats}
use regula.Rule.Safety.{IsSafe, checked-IsSafe, parse_bool-IsSafe}
use regula.Rule.Safety.Typing.{AreSafe}
use regula.Params.{
  Dynamic, string, bool, int64, float64, as_string, as_bool, as_int64, as_float64, map_params,
  text_of, or_mismatch, query_params,
}

module _ (fl : Floats) where
  as_string-IsSafe : (o : Option (Dynamic fl)) → IsSafe (as_string fl o)
  unfolding as_string
  as_string-IsSafe none = tt
  as_string-IsSafe (some (string s)) = tt
  as_string-IsSafe (some _) = tt

  as_bool-IsSafe : (o : Option (Dynamic fl)) → IsSafe (as_bool fl o)
  unfolding as_bool
  as_bool-IsSafe none = tt
  as_bool-IsSafe (some (bool b)) = tt
  as_bool-IsSafe (some _) = tt

  as_int64-IsSafe : (o : Option (Dynamic fl)) → IsSafe (as_int64 fl o)
  unfolding as_int64
  as_int64-IsSafe none = tt
  as_int64-IsSafe (some (int64 i)) = tt
  as_int64-IsSafe (some _) = tt

  as_float64-IsSafe : (o : Option (Dynamic fl)) → IsSafe (as_float64 fl o)
  unfolding as_float64
  as_float64-IsSafe none = tt
  as_float64-IsSafe (some (float64 f)) = tt
  as_float64-IsSafe (some _) = tt

  pub map_params-AreSafe : (m : List (String × Dynamic fl)) → AreSafe fl (map_params fl m)
  unfolding map_params
  map_params-AreSafe m = record {
    string_safe = λ n. as_string-IsSafe (lookup n m);
    bool_safe = λ n. as_bool-IsSafe (lookup n m);
    int64_safe = λ n. as_int64-IsSafe (lookup n m);
    float64_safe = λ n. as_float64-IsSafe (lookup n m);
  }

text_of-IsSafe : (o : Option String) → IsSafe (text_of o)
unfolding text_of
text_of-IsSafe none = tt
text_of-IsSafe (some s) = tt

or_mismatch-IsSafe : {A : Type 0} (r : Result A) → IsSafe r → IsSafe (or_mismatch r)
or_mismatch-IsSafe (ok a) h = tt
or_mismatch-IsSafe (err e) h = tt
or_mismatch-IsSafe panic h = h

read-IsSafe :
    {A : Type 0} (o : Option String) (read : String → Result A)
    → ((s : String) → IsSafe (read s))
    → IsSafe (text_of o >>= λ s. or_mismatch (read s))
unfolding text_of
read-IsSafe none read h = tt
read-IsSafe (some s) read h = or_mismatch-IsSafe (read s) (h s)

pub query_params-AreSafe :
    (fl : Floats) (q : List (String × String)) → AreSafe fl (query_params fl q)
unfolding query_params
query_params-AreSafe fl q = record {
  string_safe = λ n. text_of-IsSafe (lookup n q);
  bool_safe = λ n. read-IsSafe (lookup n q) parse_bool parse_bool-IsSafe;
  int64_safe = λ n.
      read-IsSafe (lookup n q) (λ s. checked (parse_int s)) (λ s. checked-IsSafe (parse_int s));
  float64_safe = λ n.
      read-IsSafe (lookup n q) (λ s. checked (fl.parse_float s))
        (λ s. checked-IsSafe (fl.parse_float s));
}
