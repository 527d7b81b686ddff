-- ===== src/Redis.antt =====
-- The commands of Redis that the program sends, as interfaces: a store, its commands and what the
-- Redis documentation says of them. Redis is not part of the repository, so nothing here is
-- implemented; `Redis/Reference` has values of these records.
-- Every command takes the instant, in seconds, at which the server runs it: a key whose deadline
-- has come is gone.
pub mod Deadline
pub mod SortedSets
pub mod Counters
pub mod Strings
pub mod Reference
pub mod StringReference
