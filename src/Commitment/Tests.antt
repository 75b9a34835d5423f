-- ===== src/Commitment/Tests.antt =====
-- A linear scheme over the integers, small tables, and the theorems at them.
mod ToyScheme
mod Data
mod Bounds
mod Tables
mod Query
