-- ===== src/Tests.antt =====
-- Runs of the model at fixed inputs, and each theorem of the header's list at an input that meets
-- its hypotheses.
mod Samples
mod Runs
mod Rules
mod Rulesets
mod Serving
mod Requests
mod Watches
mod Documents
mod Etcd
mod Paging
mod Program
mod Relayed
mod Command
mod Sending
