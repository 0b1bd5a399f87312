-- ===== src/Client/Sending.antt =====
-- What a request of api/client sends and what becomes of its reply: joinPath and the query of List
-- in rulesets.go, and `do` in client.go, whose tries are those of tryN.
pub mod Answered
pub mod Located
use Prim.Native.String
use regula.Prelude.{
  ℕ, ℤ, pos, String, Bool, true, false, ◌||◌, Option, none, some, List, [], ◌∷◌, ◌++◌, ltb, leb,
  ltb_ℤ, nat_eq, if◌then◌else◌, ◌==◌,
}
use regula.Strconv.{format_int}
use regula.Paths.{path_join}
use regula.Client.{ClientError, api_error, another, try_n}

unfoldable pub join_path : String → String
join_path path =
    let joined = String.◌++◌ "./" (path_join ("rulesets/" ∷ path ∷ [])) in
    if joined == "./rulesets" then String.◌++◌ joined "/" else joined

pub record ListOptions : Type 0 where
  pub limit : ℤ
  pub continue : String

-- `if opt.Limit != 0 { q.Add("limit", strconv.Itoa(opt.Limit)) }`.
unfoldable pub limit_part : ℤ → List (String × String)
limit_part (pos ℕ.zero) = []
limit_part limit = ("limit", format_int limit) ∷ []

unfoldable pub continue_part : String → List (String × String)
continue_part token = if token == "" then [] else ("continue", token) ∷ []

unfoldable pub option_parts : Option ListOptions → List (String × String)
unfolding limit_part continue_part
option_parts none = []
option_parts (some opt) = limit_part opt.limit ++ continue_part opt.continue

-- The query of List.
unfoldable pub list_query : Option ListOptions → List (String × String)
unfolding option_parts
list_query opt = ("list", "") ∷ option_parts opt

-- What a decoder makes of a body: a value, no document at all, or a fault.
pub data Decoded (A : Type 0) : Type 0 where
  decoded : A → Decoded A
  at_end : Decoded A
  faulty : Decoded A

-- A round trip: the error with which it fails, or a status and a body.
pub data Reply (A : Type 0) : Type 0 where
  no_reply : ClientError → Reply A
  reply : ℕ → Decoded A → Reply A

module _ {A : Type 0} (zero_value : A) where
  unfoldable pub store_body : Decoded A → A × Option ClientError
  store_body (decoded a) = (a, none)
  store_body at_end = (zero_value, none)
  store_body faulty = (zero_value, some another)

  -- The value and the error after one round trip. What a faulty body stored is left out.
  unfoldable pub do_request : Reply A → A × Option ClientError
  unfolding store_body
  do_request (no_reply e) = (zero_value, some e)
  do_request (reply code body) =
      if ltb code 200 || leb 400 code then (zero_value, some (api_error code)) else store_body body

  -- `try` of a request, with the client's number of tries.
  unfoldable pub try_request : (ℕ → Reply A) → ℤ → A × Option ClientError
  unfolding try_n do_request
  try_request replies retries = try_n (λ i. do_request (replies i)) retries
