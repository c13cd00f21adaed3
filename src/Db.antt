-- ===== src/Db.antt =====
-- src/util/db_util.cpp: the statements that the program gives to sqlite. What sqlite answers is a
-- parameter: a function of the statements run so far, so the state kept here is their history, and
-- the prepared statements that were not finalized.
pub mod Model
pub mod Friends
pub mod Messages
pub mod Chains
pub mod Queries
pub mod CreateSql
pub mod Initial
