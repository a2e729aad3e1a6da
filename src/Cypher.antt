-- ===== src/Cypher.antt =====
-- cypher/: Cypher text, and the records that it brings.
pub mod Keys
pub mod Record
pub mod Cursor
