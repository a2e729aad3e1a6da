-- ===== src/Data.antt =====
-- data.py: the types of graph data.
pub mod Walk
