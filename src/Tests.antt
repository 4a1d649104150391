-- ===== src/Tests.antt =====
-- Sample rows, tests on them, and each property at a concrete input.
mod Rows
mod Scheduling
mod Versions
mod Publication
mod Processing
mod Alerting
mod Throttling
mod Fleets
mod Tasks
mod Orders
mod Players
mod Monitoring
mod Notices
mod Serving
mod Updates
mod Purging
