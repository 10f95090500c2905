-- ===== src/Examples.antt =====
-- The properties at concrete inputs.
mod Fixtures
mod Tickets
mod StateMachine
mod Lifecycle
mod Watchdog
mod Sync
mod Console
mod SshPool
mod Deployment
mod Recovery
mod Entry
mod Config
mod Access
mod AccessLog
mod Probe
mod Jobs
mod World
