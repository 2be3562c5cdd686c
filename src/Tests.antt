-- ===== src/Tests.antt =====
-- Runs of the models on small inputs, and the theorems applied to them.
mod Sample
mod Serve
mod Monitor
mod Inner
mod Startup
mod RoundRobin
mod Bench
mod Procmon
mod Capture
mod Reuseport
mod Load
mod Eventfd
mod Monitors
mod Readings
mod Reports
mod Threads
mod Feedback
mod TestBench
