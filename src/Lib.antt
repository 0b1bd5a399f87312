-- ===== src/Lib.antt =====
-- Regula: rules engine. Rulesets are ordered lists of rules under a path; a rule is a Boolean
-- expression over typed parameters with a result. A program asks an Engine for the result of a
-- ruleset; the Engine asks an Evaluator, which is a RulesetBuffer in memory or a client of the
-- server, and the server evaluates with the parameters that the client put in a query string.
--
-- The parts and their files:
--   Rule/Value       rule/expr.go, from Value on: texts with a type, Equal (`equal`) and the four
--                    orders GT, GTE, LT and LTE (`gt`, `gte`, `lt`, `lte`, each with its switch on
--                    the type, `gt_as` and so on). The field Data is called `content`.
--   Rule/Expr        the expressions of rule/expr.go and the struct operator of rule/json.go
--   Rule/Make        the functions Not, Or, ..., Percentile, StringParam, ..., True (`always`)
--   Rule/Eval        the interface Params of rule/expr.go and the methods Eval (`eval_or`, ...)
--   Rule/Walk        walk of rule/expr.go; Rule, Eval and Params of rule/rule.go
--   Ruleset          ruleset.go: constructors, validate, Eval (`eval_ruleset`) and Params
--                    (`ruleset_params`)
--   Params           param.go (`map_params`) and api/server/param.go (`query_params`)
--   Params/Transport the query that EvalVersion of api/client/rulesets.go builds (`encode_params`)
--   Engine           engine.go: Engine with its getters and options; LoadStruct in Engine/Struct
--   Buffer           engine.go: RulesetBuffer
--   Rule/Json        rule/json.go and the struct tags of rule/expr.go: expressions as documents
--   Rule/Document    rule/rule.go: a rule as a document, and its UnmarshalJSON
--   Ruleset/Json     ruleset.go: a ruleset as a document, and its UnmarshalJSON
--   Store            store/service.go: the interface of the store; store/etcd/rulesets.go: the
--                    signature of a ruleset (`new_signature`, `match_with`)
--   Store/Names      store/etcd/rulesets.go: validateRuleset and the names of paths and parameters
--   Store/Documents  store/etcd/rulesets.go: an entry and a signature as documents
--   Store/Etcd       store/etcd/rulesets.go: the RulesetService over the keys and values of etcd;
--                    List and Watch in Store/Etcd/Listing, and all of it as the interface that the
--                    server calls in Store/Etcd/Service
--   Api              api/types.go: the documents of the server and its clients, which Api/Unmarshal
--                    reads
--   Server           api/server/api.go: ServeHTTP (`serve_http`) and its handlers; writeError and
--                    encodeJSON of api/server/handler.go. Server/Setup has NewHandler, and
--                    Server/Running Run of server.go and RunServer of cmd/regula/cli
--   Client           api/client: tryN of client.go (`try_n`), Watch of rulesets.go (`watch`),
--                    `do` of client.go (`do_request`) and the query of List in Client/Sending, and
--                    the first listing (`fill`) and the goroutine (`consume`) of evaluator.go,
--                    which Client/Following puts together. Client/Setup has New, its options and
--                    the headers of newRequest, and Client/Calls the calls of rulesets.go
--   Command          cmd/regula: LoadConfig (`load_config`), its flags, and main (`start_main`)
--   Program          a client, the server and a store together: what a client gets for a call
--   Outcome          the error values of rule/rule.go, errors.go and store/service.go, and the
--                    results of code that fails
-- Strconv, Hash, Regexp, Paths and Json write out the documented behaviour of the standard
-- library's strconv, hash/fnv, regexp, path and encoding/json, as far as the program uses it.
-- Floats is an interface: float64, its parser, its format with six decimals and its two orders, of
-- which nothing is assumed. Prelude holds what the modules share. Tests has runs at fixed inputs
-- and each theorem of the list at one input.
--
-- How the code corresponds:
--   A pair (T, error) of Go is a `Result T`, in which a run-time panic is a value of its own. The
--   Engine's getters of numbers return a parser's value beside its error, as the code does.
--   An operator's Eval is given the outcomes of its operands. Evaluation has no effect, so an
--   outcome that is not read is a call that is not made.
--   A Go map is an association list. The order of its keys, which Go leaves open, is the list's.
--   int64 is ℤ: every number comes from a parser that bounds it, or from the bound 2^63 in a
--   hypothesis. The program adds in one place, Watch of the store, where the sum wraps; FNV-1
--   wraps at 2^32 as the code does.
--   A request handler of the server calls the store's service once at most, and is a step on the
--   state of the store; the service is a record of operations that a theorem takes.
--   A JSON document is a tree. How its text is read and written is left to encoding/json, and
--   gjson.Get(...).Str is a parameter. Of several faults the first one is reported. A key that comes
--   twice in one object is stored twice, the second time over a zero value.
--   A value of etcd is a text or a document. A call of etcd is given the state in which it is
--   served, or the error with which it fails; the printer of documents, the digest and the random
--   versions are parameters too, with what is documented of them as hypotheses. So are the
--   answers of a range read and the messages of a watch.
--   A method of RulesetBuffer holds the buffer's lock from its start to its end, so the orders in
--   which concurrent calls run are the sequences of the calls.
--   The printer of integers has fuel for 20 digits, and an int64 has at most 19. tryN is recursion
--   on the tries that are left, a watch on the list of its polls. The listing has fuel for
--   one request for each page. All else is recursion on the expression, the document or a list.
--
-- Below a part stand the modules of its proofs, named for what they prove: Rule/Compare,
-- Rule/Logic, Rule/Percentile, Rule/Params, Rule/Safety, Rule/Value/Order; Ruleset/Noting,
-- Ruleset/Coherent, Ruleset/Matching, Ruleset/Locality; Engine/Typed; Buffer/History,
-- Buffer/Serving; Params/Safety; Store/Matching; Rule/Json/RoundTrip, Rule/Document/Missing,
-- Ruleset/Json/Decoding, Store/Names/Format, Store/Names/Validation, Store/Documents/Decoding;
-- Store/Etcd/Parts, Keys, Shelf, Steps, Refinement, Reading, Ending, Invariant, Tokens, Pages and Paging;
-- Regexp/Language; Paths/Parts, Joining and Endings; Server/Statuses, Server/Requests, Server/Remote,
-- Server/Listed; Client/Retries, Client/Watching, Client/Sending/Answered, Client/Sending/Located,
-- Client/Listing, Client/Setup/Headers, Client/Setup/Options; Api/RoundTrip; Command/Flags,
-- Command/Layers, Command/Loading; Server/Watched; Program/Evaluation, Program/Listing,
-- Program/Watching, Program/Seen, Program/Stored, Program/Publication.
--
-- Not modelled: logging, but for the failure of CreateLogger in cmd/regula/cli; the delay between
-- two tries; the text of an api.Error, of which a client's error keeps the status; Close of the
-- client's evaluator, which waits for a goroutine. The middlewares of hlog and the router of net/http, the loader of the
-- configuration, package flag, net/url and the parser of durations are parameters, and so are the
-- round trips of a client: where Program joins client and server, a reply has the status and the
-- document of the server's response. Nil expressions, nil results and a nil Value in an EvalResult
-- are left out: the constructors that are modelled make none. A nil Ruleset is `none`. A nil slice of rules
-- and an empty one are one value, which is written as null, where Go writes an empty slice that is
-- not nil as []. Contexts are passed on untouched and are left out too.
pub mod Prelude
pub mod Outcome
pub mod Json
pub mod Api
pub mod Strconv
pub mod Hash
pub mod Regexp
pub mod Paths
pub mod Floats
pub mod Rule
pub mod Ruleset
pub mod Params
pub mod Engine
pub mod Buffer
pub mod Store
pub mod Server
pub mod Client
pub mod Command
pub mod Program
mod Tests
