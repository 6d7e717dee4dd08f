-- ===== src/Tests.antt =====
-- Runs of the model on concrete inputs, and the theorems at inputs that meet their hypotheses.
mod Tuples
mod Specs
mod Notifier
mod Database
mod Tables
mod Spaces
mod Programs
mod Interleaved
mod Commands
mod Services
mod Requests
