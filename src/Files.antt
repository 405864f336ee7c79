-- ===== src/Files.antt =====
-- lib/transaction_files.c: the files that a transaction installs and removes.
pub mod Types
pub mod Sort
pub mod Collect
pub mod Obsolete
pub mod Transaction
