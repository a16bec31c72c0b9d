-- ===== src/Tests.antt =====
-- Concrete inputs: each theorem of the development at one that meets its hypotheses.
mod Storage
mod Wal
mod Recovery
mod Transactions
mod Cache
mod Evaluator
mod Sql
mod Parser
mod Net
mod Index
