-- ===== src/Import.antt =====
-- cmd/import_octopus_users/main.go: the import of the users of the old system.
--
-- The rows that the old database returns, in the order of their ids, are an argument. Identifiers
-- and event ids that are drawn at random are `ids n` and `event_ids n` for the n-th user. The two
-- connections and what is printed are left out: the counts are the result.
pub mod Users
pub mod Writing
pub mod Running
pub mod Again
pub mod Repeat
pub mod Told
