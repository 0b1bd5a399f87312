-- ===== src/Program.antt =====
-- The program as a whole: a client of api/client, the server of api/server and the store of
-- store/etcd, each as its own modules have it. Between client and server stands net/http: a reply
-- has the status and the document of the server's response, and a handler that panics ends the
-- connection. Each try of a request is answered alike.
pub mod Evaluation
pub mod Listing
pub mod Publication
pub mod Seen
pub mod Stored
pub mod Watching
use regula.Prelude.{ℕ, ℤ, String, Option, none, some, ◌≡◌, ap, sym, ◌∙◌}
use regula.Outcome.{Result, ok, err, panic, ◌>>=◌}
use regula.Json.{Json}
use regula.Server.{Status, status_ok, Request, Response, body_document, status_code}
use regula.Client.{ClientError, net_error, try_n}
use regula.Client.Retries.{IsSettled, try_n-IsSettled}
use regula.Client.Sending.{
  Decoded, decoded, at_end, faulty, Reply, no_reply, reply, do_request, try_request,
}

-- Where every try is answered alike, that answer counts.
pub try_request-constant :
    {A : Type 0} (zero_value : A) (replies : ℕ → Reply A) (retries : ℤ) (r : Reply A)
    → ((i : ℕ) → replies i ≡ r)
    → try_request zero_value replies retries ≡ do_request zero_value r
unfolding try_request
try_request-constant zero_value replies retries r h =
    let s = try_n-IsSettled (λ i. do_request zero_value (replies i)) retries in
    s.result ∙ ap (do_request zero_value) (h s.last)

pub ok-inj : {A : Type 0} {x y : A} → ok x ≡ ok y → x ≡ y
ok-inj e = cc

module _ {A : Type 0} (quote : String → String) (decode : Json → Result A) where
  -- A decoder's outcome; a panic of the decoder is one of the client.
  abbrev pub decoded_as : Result A → Result (Decoded A)
  decoded_as (ok a) = ok (decoded a)
  decoded_as (err e) = ok faulty
  decoded_as panic = panic

  -- The body of an error's status is decoded as an Error, which nothing reads.
  abbrev pub read_document : Status → Option Json → Result (Decoded A)
  read_document status_ok none = ok at_end
  read_document status_ok (some j) = decoded_as (decode j)
  read_document _ o = ok at_end

  -- What a client gets for the server's response.
  abbrev pub reply_of : Result Response → Result (Reply A)
  reply_of (ok resp) = read_document resp.status (body_document quote resp.body) >>= λ d.
      ok (reply (status_code resp.status) d)
  reply_of _ = ok (no_reply net_error)

  -- Each try of a request is answered by this response.
  abbrev pub Exchanges : (Request → ℕ → Reply A) → Request → Result Response → Type 0
  Exchanges exchange r resp = (i : ℕ) → reply_of resp ≡ ok (exchange r i)

  pub Exchanges-answer :
      (zero_value : A) (retries : ℤ) (exchange : Request → ℕ → Reply A) (r : Request)
      (resp : Result Response) (x : Reply A)
      → Exchanges exchange r resp
      → reply_of resp ≡ ok x
      → try_request zero_value (exchange r) retries ≡ do_request zero_value x
  Exchanges-answer zero_value retries exchange r resp x h e =
      try_request-constant zero_value (exchange r) retries x (λ i. ok-inj (sym (h i) ∙ e))
