-- ===== src/Examples.antt =====
-- Runs of the model on small inputs, and each theorem at an input that meets its conditions.
mod Ranges
mod Memory
mod Calculation
mod System
mod Text
mod Whole
mod Proc
mod Maps
mod Matching
mod Binary
mod Tables
