-- ===== src/Examples.antt =====
-- Runs of the models on small inputs: the theorems' examples and the data that they share.
mod Data
mod Graph
mod Flight
mod Values
mod Queries
mod Sessions
mod Loads
mod Logs
mod Saves
mod Family
mod Files
mod Caches
mod Storage
mod Databases
mod Compactions
mod Copies
