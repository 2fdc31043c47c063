-- ===== src/Tests.antt =====
-- A simulated device, and each theorem applied to a concrete run against it.
mod Bench
mod Find
mod Fake
mod DriverNode
mod SafetyGates
mod Handlers
mod Callbacks
mod Runs
mod Services
mod Executors
