-- ===== src/Examples.antt =====
-- The theorems at concrete inputs, and small runs of the definitions.
mod Demo
mod Pools
mod Plans
mod Wires
mod Claims
mod Handlers
mod Servers
mod Roads
mod Records
