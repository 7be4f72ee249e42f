-- ===== src/Router.antt =====
-- router.go: the functional routers, and in Traits the routers that wrap domain handlers.
pub mod State
pub mod Traits
pub mod Command
pub mod Event
