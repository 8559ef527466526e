-- ===== src/Coherence.antt =====
-- The caches that the benchmarks measure are hardware, and a parameter here: what one line looks
-- like in the cache of each core, with the laws of a MESI-like protocol that the tests rely on.
mod Defs
mod Mesi
pub use Defs.*
pub use Mesi.{nowhere, mesi, mesi-IsCoherent}
