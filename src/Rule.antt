-- ===== src/Rule.antt =====
-- Package rule (rule/): values, expressions and their evaluation, rules.
pub mod Value
pub mod Expr
pub mod Make
pub mod Eval
pub mod Walk
pub mod Json
pub mod Document
pub mod Params
pub mod Logic
pub mod Percentile
pub mod Safety
pub mod Compare
