-- ===== src/Examples.antt =====
-- The theorems at concrete inputs, and runs of the definitions.
mod Chunks
mod Blocks
mod Bodies
mod Batches
mod Saves
mod Deltas
mod Accounts
mod Worlds
mod Buses
mod Entities
mod Games
mod Wanderers
