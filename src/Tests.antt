-- ===== src/Tests.antt =====
-- Runs of the model at one set of small crates, and the theorems applied to them.
mod Unary
mod Demo
mod Logging
mod Registering
mod Parts
mod Statements
mod Completing
mod Serving
mod Tables
mod Keeping
mod Starting
mod Interleaving
mod Managing
mod Visiting
