-- ===== src/Client/Setup/Headers.antt =====
-- The headers of a request and the settings of a client, from New and newRequest of
-- api/client/client.go.
use regula.Prelude.{
  String, Bool, true, false, ◌&&◌, Option, none, some, List, [], ◌∷◌, insert, lookup, lookup-insert,
  if◌then◌else◌, ◌==◌, eq_iff, ◌≡◌, refl, sym, ap, ◌∙◌, inl, inr, Bool-cases,
}
use regula.Client.Setup.{set_headers, default_agent, content_type, request_headers, user_agent}

-- No key comes twice, and each is in its canonical form.
abbrev pub IsHeaders : (String → String) → List (String × String) → Type 0
IsHeaders canonical [] = Unit
IsHeaders canonical ((k, v) ∷ hs) =
    (canonical k ≡ k) × (lookup k hs ≡ none) × IsHeaders canonical hs

abbrev pub or_else : Option String → Option String → Option String
or_else none o = o
or_else (some v) o = some v

lookup-set_headers :
    (canonical : String → String) (n : String) (hs req : List (String × String))
    → IsHeaders canonical hs
    → lookup n (set_headers canonical req hs) ≡ or_else (lookup n hs) (lookup n req)
unfolding set_headers lookup
lookup-set_headers canonical n [] req h = refl
lookup-set_headers canonical n ((k, v) ∷ hs) req (form, once, h) =
    lookup-set_headers canonical n hs (insert (canonical k) v req) h
    ∙ (rw (lookup-insert (canonical k) n v req, form)
        (elim (Bool-cases (k == n)) [
          | inl b ↦ rw (b, ap (λ x. lookup x hs) (sym ((eq_iff k n).0 b)) ∙ once) refl
          | inr b ↦ rw b refl
        ]))

or_else-none : (o : Option String) → or_else o none ≡ o
or_else-none none = refl
or_else-none (some v) = refl

lookup-default_agent :
    (n : String) (req : List (String × String)) (o : Option String)
    → lookup "User-Agent" req ≡ o
    → lookup n (default_agent o req)
      ≡ or_else (lookup n req) (if "User-Agent" == n then some user_agent else none)
unfolding default_agent
lookup-default_agent n req o held = elim (Bool-cases ("User-Agent" == n)) [
  | inl b ↦ rw b (agent o (ap (λ x. lookup x req) (sym ((eq_iff "User-Agent" n).0 b)) ∙ held) b)
  | inr b ↦ rw (b, or_else-none (lookup n req)) (other o b)
]
  where
    agent :
        (o : Option String)
        → lookup n req ≡ o
        → ("User-Agent" == n) ≡ true
        → lookup n (default_agent o req) ≡ or_else (lookup n req) (some user_agent)
    agent (some v) h b = rw h refl
    agent none h b = rw (lookup-insert "User-Agent" n user_agent req, b, h) refl

    other :
        (o : Option String)
        → ("User-Agent" == n) ≡ false
        → lookup n (default_agent o req) ≡ lookup n req
    other (some v) b = refl
    other none b = rw (lookup-insert "User-Agent" n user_agent req, b) refl

-- What a request has under a name.
abbrev pub header_value : Bool → List (String × String) → String → Option String
header_value has_body hs n =
    if "Accept" == n
    then some "application/json"
    else if has_body && ("Content-Type" == n)
    then some "application/json"
    else or_else (lookup n hs) (if "User-Agent" == n then some user_agent else none)

lookup-content_type :
    (n : String) (has_body : Bool) (req : List (String × String))
    → lookup n (content_type has_body req)
      ≡ (if has_body && ("Content-Type" == n) then some "application/json" else lookup n req)
unfolding content_type
lookup-content_type n true req = lookup-insert "Content-Type" n "application/json" req
lookup-content_type n false req = refl

-- A request of the client has under each name: "application/json" as Accept, and as Content-Type if
-- it has a body; else what the client's headers say; and where they say nothing, the client's own
-- User-Agent and no other header. This holds in whatever order the headers are read, if none comes
-- twice and their keys are in canonical form.
pub lookup-request_headers :
    (canonical : String → String) (n : String) (has_body : Bool) (hs : List (String × String))
    → IsHeaders canonical hs
    → lookup n (request_headers canonical has_body hs) ≡ header_value has_body hs n
unfolding request_headers
lookup-request_headers canonical n has_body hs h =
    let set = set_headers canonical [] hs in
    let held : lookup n set ≡ lookup n hs =
      lookup-set_headers canonical n hs [] h ∙ (unfold lookup in or_else-none (lookup n hs)) in
    rw
      (
        lookup-insert "Accept" n "application/json"
            (content_type has_body (default_agent (lookup "User-Agent" set) set)),
        lookup-content_type n has_body (default_agent (lookup "User-Agent" set) set),
        lookup-default_agent n set (lookup "User-Agent" set) refl,
        held,
      )
      refl
