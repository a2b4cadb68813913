-- ===== src/Http.antt =====
-- include/net/http: the HTTP servers. Beast reads and writes the messages: a request is what it has
-- read, a response what it is given to write.
pub mod Message
pub mod Routing
pub mod Blocking
pub mod Callbacks
pub mod Listener
pub mod Coroutine
pub mod Comparison
