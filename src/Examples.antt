-- ===== src/Examples.antt =====
-- The theorems at concrete inputs.
mod Checks
mod Agents
mod Loops
mod Network
mod Collectors
mod Logins
mod Ports
mod Hubs
mod Settings
mod Access
mod Accounts
mod Fleet
mod Requests
mod Metrics
mod Schedules
mod Scans
mod Outages
