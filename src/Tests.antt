-- ===== src/Tests.antt =====
-- Runs of the model on concrete inputs.
mod Wire
mod Session
mod Topics
mod Broker
mod Router
mod Client
mod Auth
mod Requests
mod Server
mod Sql
