-- ===== src/Samples.antt =====
-- Tests of the definitions, and each theorem at one concrete input.
mod Flows
mod Breakpoints
mod Hooks
mod Bodies
mod Streams
mod Rules
mod Events
mod Services
mod Proxies
mod Connections
