-- ===== src/Tests.antt =====
-- Runs of the model on concrete inputs, and each theorem at an input that meets its hypotheses.
mod Budgets
mod Engines
mod Caches
mod Payloads
mod Detectors
mod Redactions
mod Interceptions
mod Walkers
