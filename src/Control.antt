-- ===== src/Control.antt =====
-- firmware/main/control.c: requests, the parsing of a configuration, and the command dispatcher.
pub mod Json
pub mod Fields
pub mod Config
pub mod Parse
pub mod Ranges
pub mod Sizes
pub mod Accepted
pub mod Rates
pub mod Dispatch
pub mod Response
pub mod Commands
pub mod Valid
pub mod Session
pub mod Calm
pub mod Step
pub mod Handlers
pub mod Transitions
pub mod Tests
