-- ===== src/Command/Flags.antt =====
-- The flag of endpoints in cmd/regula/cli/cli.go: its text and its parts.
use Prim.Native.Char.{Char}
use Prim.Native.String
use text.Mathlib.TextLemmas as L
use regula.Prelude.{String, ◌≢◌, All, codes}

-- An endpoint without commas.
abbrev pub IsEndpoint : String → Type 0
IsEndpoint p = All (λ c. c ≢ b',') (codes p)
