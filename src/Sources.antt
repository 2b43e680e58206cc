-- ===== src/Sources.antt =====
-- sources/: the sources that poll a URL and that subscribe to a channel of Redis.
pub mod Http
pub mod Redis
pub mod Wire
