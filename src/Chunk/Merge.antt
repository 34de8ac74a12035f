-- ===== src/Chunk/Merge.antt =====
-- `merge` and `concatenate` on map chunks, told by the keys.
pub mod Lookup
pub mod Total
pub mod Conflicts
use ztd.Base.{Bool}
