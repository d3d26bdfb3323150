-- ===== src/Store.antt =====
-- server/environments/store.py, `DjangoStateStore`: the durable state of the control plane. The
-- first children hold the tables and the methods, the others what is proved of them.
pub mod Tables
pub mod Upsert
pub mod Lifecycle
pub mod Sound
pub mod Reserve
pub mod Capabilities
pub mod Listing
pub mod Tests
