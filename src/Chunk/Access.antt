-- ===== src/Chunk/Access.antt =====
-- The accessors of `chunkdat`: `listSize`, `getlist`, `getmap`, `subChunkPtr` and `subChunkRef`.
-- A reference or a pointer to a subchunk is the subchunk.
use ztd.Base.{Option, none, some, ℕ, [], ◌++◌}
use ztd.Base.Int.{ℤ, pos, minus_one}
use ztd.Base.Text.{Bytes, codes}
use ztd.Chunk.{Chunkdat, Parent, Values, Items, chunkdat, chunk_map, chunk_list}
use ztd.Chunk.Containers.{find, at, size}
use ztd.Chunk.Print.{default_strval}
use ztd.Error.{FormatError, format_error, Result, ok, thrown, to_string}

unfoldable pub list_size : Chunkdat → ℤ
list_size (chunkdat t (chunk_list l)) = pos (size l)
list_size _ = minus_one

-- What an accessor throws: the data imported by the parent, if there is one.
accessor_error : Bytes → Chunkdat → Option Parent → ℤ → FormatError
accessor_error what c (some p) offset = format_error what p.file_path p.im_data offset
accessor_error what c none offset = format_error what [] (default_strval c) minus_one

access_error : Bytes → Chunkdat → FormatError
unfolding accessor_error
access_error what (chunkdat t c) = accessor_error what (chunkdat t c) t.parent t.offset

unfoldable pub getlist : Chunkdat → Result Items
unfolding access_error
getlist (chunkdat t (chunk_list l)) = ok l
getlist c = thrown (access_error (codes "chunkdat isn't a list") c)

unfoldable pub getmap : Chunkdat → Result Values
unfolding access_error
getmap (chunkdat t (chunk_map m)) = ok m
getmap c = thrown (access_error (codes "chunkdat isn't a map") c)

unfoldable pub sub_chunk_ptr : Chunkdat → Bytes → Option Chunkdat
sub_chunk_ptr (chunkdat t (chunk_map m)) key = find key m
sub_chunk_ptr _ key = none

unfoldable pub sub_chunk_ptr_at : Chunkdat → ℕ → Option Chunkdat
sub_chunk_ptr_at (chunkdat t (chunk_list l)) a = at l a
sub_chunk_ptr_at _ a = none

unfoldable pub sub_chunk_ref : Chunkdat → Bytes → Result Chunkdat
unfolding access_error
sub_chunk_ref (chunkdat t (chunk_map m)) key = elim (find key m) [
  | some c ↦ ok c
  | none ↦ thrown (
      access_error (codes "Map doesn't have '" ++ (key ++ codes "' flag"))
        (chunkdat t (chunk_map m)))
]
sub_chunk_ref c key = thrown (access_error (codes "chunkdat isn't a map") c)

unfoldable pub sub_chunk_ref_at : Chunkdat → ℕ → Result Chunkdat
unfolding access_error
sub_chunk_ref_at (chunkdat t (chunk_list l)) a = elim (at l a) [
  | some c ↦ ok c
  | none ↦
      thrown (access_error (codes "List size is below " ++ to_string a) (chunkdat t (chunk_list l)))
]
sub_chunk_ref_at c a = thrown (access_error (codes "chunkdat isn't a list") c)
