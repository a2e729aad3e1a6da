-- ===== src/Bolt.antt =====
-- client/bolt.py: the Bolt protocol, its messages, the results that they bring and the exchange of requests
-- and responses.
pub mod Message
pub mod Result
pub mod Exchange
pub mod Transaction
