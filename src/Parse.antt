-- ===== src/Parse.antt =====
-- The reader of the ZFD format in src/filedat.cpp: `removeComments`, `_getstrval`, `_getkeyval`, and
-- `chunkdat::set` on a string.
mod Examples
pub mod Scan
pub mod Strval
pub mod KeyValue
pub mod Set
pub mod Comments
