-- ===== src/Database.antt =====
-- packages/db: the tables, the database's triggers on them, and the effects of the code that
-- reads and writes them.
pub mod Tables
pub mod Effects
pub mod Capacity
pub mod Counting
pub mod Keeps
