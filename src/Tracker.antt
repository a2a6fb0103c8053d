-- ===== src/Tracker.antt =====
-- The resource tracker: host-daemon/src/resource_tracker.h and resource_tracker.c.
pub mod Resource
pub mod Table
pub mod Probe
pub mod Free
pub mod Step
pub mod Call
pub mod Lookup
pub mod Loss
