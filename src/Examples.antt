-- ===== src/Examples.antt =====
-- Runs of the bench/ programs' functions at concrete inputs.
mod Chip
mod Words
mod Programs
mod Measurements
mod Headers
mod Interrupts
