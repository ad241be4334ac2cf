-- ===== src/Stream.antt =====
-- crates/trolly-stream: the routing of websocket messages to the handlers of their symbols.
pub mod Multiplexor
pub mod Routing
