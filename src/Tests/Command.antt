-- ===== src/Tests/Command.antt =====
-- The start of the program and the client's construction at fixed arguments.
use regula.Prelude.{
  ℤ, pos, String, Option, none, some, List, [], ◌∷◌, ◌++◌, ◌==◌, if◌then◌else◌, ◌≡◌, refl, true,
  false, lookup,
}
use regula.Outcome.{Error, Result, ok, err, message}
use regula.Server.Setup.{HandlerConfig}
use regula.Server.Running.{Event, listened, signaled, woken, hook_ran, shut_down, first_state, run}
use regula.Command.{
  Config, Fault, Flag, etcd_namespace, server_timeout, etcd_endpoints, seconds, split_commas,
}
use regula.Client.Setup.{BaseUrl, Client, request_headers}
use regula.Client.Setup.Headers.{header_value, lookup-request_headers}
use regula.Client.Setup.Options.{Setting, by_header, by_retries}

-- Flags that Parse finds: the namespace twice, and two endpoints.
abbrev found : List (Flag × String)
found =
    (etcd_namespace, "rules")
    ∷ (etcd_endpoints, "a:1,b:2")
    ∷ (server_timeout, "7s")
    ∷ (etcd_namespace, "regula")
    ∷ []

abbrev parse_seven : String → Result ℤ
parse_seven s = if s == "7s" then ok (seconds 7) else err (message "invalid duration")

abbrev parse_found : List String → List (Flag × String) × Option Fault
parse_found args = (found, none)

-- The environment sets the address.
abbrev load_address : Config → Result Config
load_address cfg = ok (record cfg { address = "localhost:5331" })

abbrev known_level : String → Option Error
known_level level = none

abbrev reachable : List String → Option Error
reachable endpoints = none

abbrev given_timeouts : HandlerConfig
given_timeouts = record { timeout = seconds 7; watch_timeout = seconds 30 }

parts : split_commas "a:1,b:2" ≡ "a:1" ∷ "b:2" ∷ []
unfolding split_commas
parts = refl

-- A base URL without a slash at its end, a header that is set twice, and retries that are lost.
abbrev at_host : String → Result BaseUrl
at_host base = ok (record { origin = base; path = "/api" })

abbrev settings : List (Setting String)
settings =
    by_header "User-Agent" "a"
    ∷ by_retries (pos 1) (pos 1) (pos 9) (some (message "dropped"))
    ∷ by_header "User-Agent" "b"
    ∷ []

-- A signal, and a shutdown that ends in time.
abbrev stopped : List Event
stopped = listened none ∷ signaled ∷ woken ∷ shut_down none ∷ []

-- Run has returned, and the watches are canceled after it.
late :
    ((run first_state stopped).watches_canceled ≡ false)
    × ((run first_state (stopped ++ hook_ran ∷ [])).watches_canceled ≡ true)
unfolding run first_state
late = (refl, refl)

-- The client's headers, which name its own agent.
abbrev named : List (String × String)
named = ("User-Agent", "a") ∷ ("X-Team", "b") ∷ []

lookup-request_headers_example :
    lookup "User-Agent" (request_headers (λ k. k) true named) ≡ header_value true named "User-Agent"
unfolding lookup
lookup-request_headers_example =
    lookup-request_headers (λ k. k) "User-Agent" true named (refl, refl, (refl, refl, tt))
