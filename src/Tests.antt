-- ===== src/Tests.antt =====
-- Runs of the code on concrete inputs, and the theorems at inputs that meet their hypotheses.
mod ObjectStore
mod Grants
mod Corpus
mod Runs
mod Records
mod Results
mod Telemetry
