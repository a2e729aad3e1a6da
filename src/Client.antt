-- ===== src/Client.antt =====
-- client/__init__.py: pools of connections, routing to the servers of a cluster, and the connector in front
-- of both.
pub mod Pool
pub mod Router
pub mod Connector
pub mod Choosing
