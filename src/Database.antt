-- ===== src/Database.antt =====
-- MySQL as the services meet it: the tables of migrations/, the statements that may fail, and the
-- transactions of pkg/database/tx.go.
pub mod Tables
pub mod Tx
pub mod Runs
pub mod Quiet
