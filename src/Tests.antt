-- ===== src/Tests.antt =====
-- Each theorem at a concrete input, and the definitions run.
mod Samples
mod Request
mod Policy
mod Config
mod State
mod Rpc
mod Gmail
mod Reconcile
mod Discord
mod Service
mod System
mod Enforcement
