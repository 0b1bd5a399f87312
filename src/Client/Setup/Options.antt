-- ===== src/Client/Setup/Options.antt =====
-- The client that New of api/client/client.go makes of a base URL and options.
use Prim.Native.String
use text.Mathlib.TextLemmas as L
use regula.Prelude.{
  ℤ, pos, String, true, Option, none, some, List, [], ◌∷◌, lookup, ◌==◌, if◌then◌else◌, ◌≡◌,
}
use regula.Outcome.{Error}
use regula.Client.Setup.{
  BaseUrl, Client, milliseconds, ends_in_slash, base_path, Customization, http_client_option,
  header_option, or_default,
}

-- The options of the package, and one of a caller that sets the exported delays and retries, with
-- the error that it returns.
pub data Setting (H : Type 0) : Type 0 where
  by_client : H → Setting H
  by_header : (k v : String) → Setting H
  by_retries : (watch_delay delay retries : ℤ) → Option Error → Setting H

module _ {H : Type 0} where
  abbrev pub option_of : Setting H → Customization H
  option_of (by_client h) = http_client_option h
  option_of (by_header k v) = header_option k v
  option_of (by_retries w d n e) =
      λ c. (record c { watch_retry_delay = w; retry_delay = d; retries = n }, e)

  abbrev pub options_of : List (Setting H) → List (Customization H)
  options_of [] = []
  options_of (s ∷ ss) = option_of s ∷ options_of ss

  -- The last client and the last value of a header that are set, or what there was.
  abbrev pub last_client : Option H → List (Setting H) → Option H
  last_client old [] = old
  last_client old (by_client h ∷ ss) = last_client (some h) ss
  last_client old (_ ∷ ss) = last_client old ss

  abbrev pub last_header : String → Option String → List (Setting H) → Option String
  last_header n old [] = old
  last_header n old (by_header k v ∷ ss) = last_header n (if k == n then some v else old) ss
  last_header n old (_ ∷ ss) = last_header n old ss

  pub record IsMade (default_client : H) (u : BaseUrl) (ss : List (Setting H)) (c : Client H)
      : Type 0 where
    pub origin : c.base_url.origin ≡ u.origin
    pub path : c.base_url.path ≡ base_path u.path
    pub slash : ends_in_slash c.base_url.path ≡ true
    pub http_client : c.http_client ≡ or_default default_client (last_client none ss)
    pub headers : (n : String) → lookup n c.headers ≡ last_header n none ss
    pub retries : c.retries ≡ pos 3
    pub retry_delay : c.retry_delay ≡ milliseconds 250
    pub watch_retry_delay : c.watch_retry_delay ≡ milliseconds 1000
