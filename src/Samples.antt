-- ===== src/Samples.antt =====
-- Concrete instances of what the repository does not hold: a cJSON of trees, and an SQLite that never
-- fails; with the products and the tables on which the theorems are tried.
pub mod Offline
pub mod Trees
pub mod Engines
pub mod Lawful
pub mod Stock
