-- ===== src/Redis.antt =====
-- kojin-redis/src: the names of the keys, the configuration, the commands that the code sends to the
-- server, and the broker and the result backend over them.
pub mod Keys
pub mod Config
pub mod Commands
pub mod Broker
pub mod ResultBackend
