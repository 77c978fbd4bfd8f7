-- ===== src/Network.antt =====
-- src/Network: the sessions, the state that they share, and the listener.
pub mod WebSocketSession
pub mod SharedState
pub mod HttpSession
pub mod Listener
pub mod Room
