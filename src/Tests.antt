-- ===== src/Tests.antt =====
-- Concrete stand-ins for the code outside of the repository, the theorems at concrete inputs, and
-- tests of the definitions.
mod Fixtures
mod Chunks
mod Ranges
mod Maps
mod Arenas
mod Caches
mod Shards
mod Bits
mod Histories
mod Restarts
mod Contents
