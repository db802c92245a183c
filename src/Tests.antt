-- ===== src/Tests.antt =====
-- Runs of the model on concrete inputs, and the theorems applied at them.
mod Memtables
mod Logs
mod Tables
mod Graphs
mod Caches
mod Lanes
mod Engines
mod Flushes
mod Manifests
mod Compactions
mod Restarts
