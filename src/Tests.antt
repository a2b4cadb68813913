-- ===== src/Tests.antt =====
-- Runs at concrete inputs of what the other modules state.
mod Streams
mod Servers
mod Databases
mod Packets
mod Parsers
mod Samples
mod Loggers
mod Crashes
mod Procedures
mod Websockets
mod Sessions
mod Accounts
mod Services
