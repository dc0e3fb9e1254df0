-- ===== src/Broker.antt =====
-- broker/: the topics of a broker, their subscriptions and the router.
pub mod Topics
pub mod Store
pub mod Subscriptions
pub mod Router
pub mod Requests
pub mod Sql
