-- ===== src/Chunk.antt =====
-- The data model of include/filedat.hpp: `chunkdat` with the back-end classes behind `m_achunk`. A chunk owns its parts, so a deep copy of a chunk is the chunk.
-- `std::map<std::string, chunkdat*>` is the list of its pairs in the order of the keys.
mod Examples
pub mod Containers
pub mod Print
pub mod Access
pub mod Edit
pub mod Ordered
pub mod Maps
pub mod Copy
pub mod Memory
pub mod Operators
pub mod Types
pub mod Views
pub mod Merge
use ztd.Error.{FormatError}
use ztd.Base.{List, Option, none, some, ℕ, [], suc}
use ztd.Base.Int.{ℤ, pos, negsuc}
use ztd.Base.Text.{Bytes}

-- `m_parent`, as the error messages read it: `filePath()` and `im_data()`.
pub record Parent : Type 0 where
  pub file_path : Bytes
  pub im_data : Bytes

-- The debugging fields `m_parent` and `m_offset`.
pub record Trace : Type 0 where
  pub parent : Option Parent
  pub offset : ℤ

mutual
  pub data Chunkdat : Type 0 where
    chunkdat : Trace → ChunkAbstract → Chunkdat

  -- `null` is a null `m_achunk`.
  pub data ChunkAbstract : Type 0 where
    null : ChunkAbstract
    chunk_string : Bytes → ChunkAbstract
    chunk_map : Values → ChunkAbstract
    chunk_list : Items → ChunkAbstract

  pub data Values : Type 0 where
    no_values : Values
    value : Bytes → Chunkdat → Values → Values

  pub data Items : Type 0 where
    no_items : Items
    item : Chunkdat → Items → Items

-- `chunk_abstract::typeEnum`.
pub data TypeEnum : Type 0 where
  none_type string_type map_type list_type : TypeEnum

-- `chunkdat()`.
abbrev pub no_trace : Trace
no_trace = record { parent = none; offset = pos 0 }

abbrev pub blank : Chunkdat
blank = chunkdat no_trace null

abbrev pub achunk : Chunkdat → ChunkAbstract
achunk (chunkdat t c) = c

abbrev pub trace : Chunkdat → Trace
trace (chunkdat t c) = t

-- `chunkdat::type`.
abbrev pub type_of : Chunkdat → TypeEnum
type_of (chunkdat t null) = none_type
type_of (chunkdat t (chunk_string v)) = string_type
type_of (chunkdat t (chunk_map m)) = map_type
type_of (chunkdat t (chunk_list l)) = list_type

-- What a mutating call leaves behind: the chunk, and the exception if it threw one.
pub record Edited : Type 0 where
  pub result : Chunkdat
  pub thrown : Option FormatError
