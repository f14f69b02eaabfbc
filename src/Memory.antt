-- ===== src/Memory.antt =====
-- Arrays of bytes that `make_persistent<char[]>` allocates, as the code uses them: `memcpy` in both
-- directions and the fixed-width integers of rocksdb's `util/coding.h`. A pointer into an array is
-- its offset. The coding is not code of this repository: it is a parameter with its laws.
mod Defs
mod Laws
pub use Defs.{Buffer, Fixed64}
unfoldable pub use Defs.{read, write, load, store, load64, store64}
pub use Laws.*
