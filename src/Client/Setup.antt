-- ===== src/Client/Setup.antt =====
-- New, its options and newRequest of api/client/client.go. Package url is a parameter: a base URL is
-- what stands before its path, and its path. An http.Client is of any type.
pub mod Headers
pub mod Options
use Prim.Native.Char.{Char, code}
use Prim.Native.String
use regula.Prelude.{
  ℕ, ℤ, pos, ◌*◌, ◌^◌, String, Bool, true, false, Option, none, some, List, [], ◌∷◌, insert, lookup,
  nat_eq, if◌then◌else◌,
}
use regula.Outcome.{Error, Result, ok, ◌>>=◌}

pub record BaseUrl : Type 0 where
  pub origin : String
  pub path : String

pub record Client (H : Type 0) : Type 0 where
  pub watch_retry_delay : ℤ
  pub retry_delay : ℤ
  pub retries : ℤ
  pub base_url : BaseUrl
  pub http_client : Option H
  pub headers : List (String × String)

abbrev pub milliseconds : ℕ → ℤ
milliseconds n = pos (n * 10 ^ 6)

-- `strings.HasSuffix(path, "/")`.
unfoldable pub ends_in_slash : String → Bool
ends_in_slash String.[] = false
ends_in_slash (String.◌∷◌ c String.[]) = nat_eq (code c) b'/'
ends_in_slash (String.◌∷◌ c (String.◌∷◌ d s)) = ends_in_slash (String.◌∷◌ d s)

unfoldable pub base_path : String → String
unfolding ends_in_slash
base_path path = if ends_in_slash path then path else String.◌++◌ path "/"

-- An Option changes the client, and may fail.
abbrev pub Customization : Type 0 → Type 0
Customization H = Client H → Client H × Option Error

abbrev pub version : String
version = "v0.6.0"

abbrev pub user_agent : String
user_agent = String.◌++◌ "Regula/" (String.◌++◌ version " Go")

module _ {H : Type 0} where
  unfoldable pub http_client_option : H → Customization H
  http_client_option h c = (record c { http_client = some h }, none)

  unfoldable pub header_option : String → String → Customization H
  header_option k v c = (record c { headers = insert k v c.headers }, none)

  -- The error of an option is dropped.
  unfoldable pub apply_options : Client H → List (Customization H) → Client H
  apply_options c [] = c
  apply_options c (opt ∷ opts) = apply_options (opt c).0 opts

  abbrev pub or_default : H → Option H → Option H
  or_default h none = some h
  or_default h (some g) = some g

  unfoldable pub blank_client : BaseUrl → Client H
  unfolding base_path
  blank_client u = record {
    watch_retry_delay = pos 0;
    retry_delay = pos 0;
    retries = pos 0;
    base_url = record u { path = base_path u.path };
    http_client = none;
    headers = [];
  }

  unfoldable pub finish_client : H → Client H → Client H
  finish_client default_client c = record c {
    http_client = or_default default_client c.http_client;
    watch_retry_delay = milliseconds 1000;
    retry_delay = milliseconds 250;
    retries = pos 3;
  }

  unfoldable pub new :
      (String → Result BaseUrl) → H → String → List (Customization H) → Result (Client H)
  unfolding apply_options blank_client finish_client
  new parse_url default_client base opts = parse_url base >>= λ u.
      ok (finish_client default_client (apply_options (blank_client u) opts))

-- "User-Agent" is set where it is missing.
unfoldable pub default_agent : Option String → List (String × String) → List (String × String)
unfolding insert
default_agent (some v) req = req
default_agent none req = insert "User-Agent" user_agent req

unfoldable pub content_type : Bool → List (String × String) → List (String × String)
unfolding insert
content_type true req = insert "Content-Type" "application/json" req
content_type false req = req

-- `Header.Set`, where `canonical` is textproto's form of a key.
module _ (canonical : String → String) where
  unfoldable pub set_headers :
      List (String × String) → List (String × String) → List (String × String)
  unfolding insert
  set_headers req [] = req
  set_headers req ((k, v) ∷ hs) = set_headers (insert (canonical k) v req) hs

  -- The headers of newRequest, for a body or none, and the client's headers in the order in which
  -- the map is read.
  unfoldable pub request_headers : Bool → List (String × String) → List (String × String)
  unfolding set_headers default_agent content_type lookup
  request_headers has_body hs =
      let set = set_headers [] hs in
      insert "Accept" "application/json"
        (content_type has_body (default_agent (lookup "User-Agent" set) set))
