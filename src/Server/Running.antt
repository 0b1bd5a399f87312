-- ===== src/Server/Running.antt =====
-- Run of api/server/server.go with the goroutine that serves, and RunServer of
-- cmd/regula/cli/cli.go with the one that waits for a signal. What the operating system and net/http
-- do are events; the five seconds of a shutdown are among its outcomes.
use regula.Prelude.{
  Bool, true, false, Option, none, some, List, [], ◌∷◌, ◌≡◌, ◌≢◌, ◌⊎◌, if◌then◌else◌,
}
use regula.Outcome.{Error}

-- What Run is at; `exited` is the end of the process by log.Fatal.
pub data Phase : Type 0 where
  listening waiting shutting_down exited : Phase
  returned : Option Error → Phase

-- The phase; whether Serve was called; whether the context that RunServer passes is canceled; whether
-- Shutdown was called; and whether the context of the watches is canceled, for which New registers
-- a function that Shutdown starts in a goroutine of its own.
pub record ServerState : Type 0 where
  pub phase : Phase
  pub served : Bool
  pub canceled : Bool
  pub shutdown_called : Bool
  pub watches_canceled : Bool

-- net.Listen returns; a signal comes; Run sees that its context is done; Serve returns, with none for
-- nil or http.ErrServerClosed; the registered function runs; Shutdown returns.
pub data Event : Type 0 where
  listened : Option Error → Event
  signaled woken hook_ran : Event
  serve_ended : Option Error → Event
  shut_down : Option Error → Event

unfoldable pub first_state : ServerState
first_state = record {
  phase = listening;
  served = false;
  canceled = false;
  shutdown_called = false;
  watches_canceled = false;
}

-- `<-ctx.Done()`, after which Shutdown is called.
unfoldable pub wake : ServerState → ServerState
wake st = if st.canceled then record st { phase = shutting_down; shutdown_called = true } else st

-- The goroutine of RunServer, after a signal.
unfoldable pub cancel : ServerState → ServerState
cancel st = record st { canceled = true }

-- The function that New registers. It runs at some time after Shutdown was called, perhaps after
-- Run has returned.
unfoldable pub run_hook : ServerState → ServerState
run_hook st = if st.shutdown_called then record st { watches_canceled = true } else st

unfoldable pub step_from : Phase → ServerState → Event → ServerState
unfolding wake cancel run_hook
step_from listening st (listened none) = record st { phase = waiting; served = true }
step_from listening st (listened (some e)) = record st { phase = returned (some e) }
step_from waiting st woken = wake st
step_from waiting st (serve_ended (some e)) = record st { phase = exited }
step_from shutting_down st (serve_ended (some e)) = record st { phase = exited }
step_from shutting_down st (shut_down o) = record st { phase = returned o }
step_from exited st event = st
step_from phase st signaled = cancel st
step_from phase st hook_ran = run_hook st
step_from phase st event = st

unfoldable pub step : ServerState → Event → ServerState
unfolding step_from
step st event = step_from st.phase st event

unfoldable pub run : ServerState → List Event → ServerState
unfolding step
run st [] = st
run st (e ∷ es) = run (step st e) es

-- Shutdown is called after a signal only, and what it starts runs after it was called.
abbrev pub IsOrdered : ServerState → Type 0
IsOrdered st =
    ((st.shutdown_called ≡ false) ⊎ (st.canceled ≡ true))
    × ((st.watches_canceled ≡ false) ⊎ (st.shutdown_called ≡ true))

-- How Run may stand in a phase.
abbrev pub IsIn : Phase → ServerState → Type 0
IsIn listening st = (st.served ≡ false) × (st.shutdown_called ≡ false)
IsIn waiting st = (st.served ≡ true) × (st.shutdown_called ≡ false)
IsIn shutting_down st = (st.served ≡ true) × (st.shutdown_called ≡ true)
IsIn exited st = st.served ≡ true
IsIn (returned o) st =
    ((st.served ≡ false) × (st.shutdown_called ≡ false) × (o ≢ none))
    ⊎ ((st.served ≡ true) × (st.shutdown_called ≡ true))

-- Both.
abbrev pub IsSound : ServerState → Type 0
IsSound st = IsIn st.phase st × IsOrdered st
