-- ===== src/Filedat/Members.antt =====
-- The inline members of `filedat` in include/filedat.hpp. They look at the chunk without a test of its
-- pointer.
use ztd.Base.{none, some, ℕ}
use ztd.Base.Text.{Bytes}
use ztd.Chunk.Access.{sub_chunk_ref, sub_chunk_ref_at}
use ztd.Chunk.Copy.{copy}
use ztd.Chunk.{Chunkdat}
use ztd.Error.{Result, ok, fault, ◌>>=◌}
use ztd.Filedat.{Filedat}

abbrev pub set_file_path : Filedat → Bytes → Filedat
set_file_path f path = record f { file_path = path }

-- `*m_dataChunk`, which `data` and the conversion to a chunk give.
unfoldable pub data_of : Filedat → Result Chunkdat
data_of f = elim f.data_chunk [ none ↦ fault | some c ↦ ok c ]

-- `set_data`, and `operator=`. Its argument is no part of the object's chunk.
unfoldable pub set_data : Filedat → Chunkdat → Result Filedat
unfolding copy
set_data f c = elim f.data_chunk [
  | none ↦ fault
  | some _ ↦ ok (record f { data_chunk = some (copy c) })
]

-- `operator[]`.
unfoldable pub file_subscript : Filedat → Bytes → Result Chunkdat
unfolding data_of
file_subscript f index = data_of f >>= λ c. sub_chunk_ref c index

unfoldable pub file_subscript_at : Filedat → ℕ → Result Chunkdat
unfolding data_of
file_subscript_at f index = data_of f >>= λ c. sub_chunk_ref_at c index
