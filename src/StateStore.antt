-- ===== src/StateStore.antt =====
-- statestore/: the interface `StateStore`, which the stateful processors use, and its two
-- implementations.
pub mod Interface
pub mod InMemory
pub mod Redis
