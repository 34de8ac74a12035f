-- ===== src/Chunk/Operators.antt =====
-- The operators of `chunkdat` in include/filedat.hpp, and its inline members. The operators that change
-- a chunk in place give the chunk as it stands when the call returns or throws.
pub mod Undo
use ztd.Base.{Option, none, some, Bool, ℕ, List}
use ztd.Base.Int.{ℤ}
use ztd.Base.Text.{Bytes, equal}
use ztd.Chunk.{Chunkdat, ChunkAbstract, Parent, Edited, achunk, trace}
use ztd.Chunk.Access.{sub_chunk_ref, sub_chunk_ref_at}
use ztd.Chunk.Copy.{copy}
use ztd.Chunk.Edit.{
  add_to_map, add_to_list, add_all_to_map, add_all_to_list, concatenate, erase, erase_index, merge,
}
use ztd.Chunk.Print.{default_strval}
use ztd.Error.{Result, ok, thrown}

abbrev pub getp : Chunkdat → ChunkAbstract
getp c = achunk c

abbrev pub parent_of : Chunkdat → Option Parent
parent_of c = (trace c).parent

abbrev pub offset_of : Chunkdat → ℤ
offset_of c = (trace c).offset

-- `operator[]`.
abbrev pub subscript : Chunkdat → Bytes → Result Chunkdat
subscript c a = sub_chunk_ref c a

abbrev pub subscript_at : Chunkdat → ℕ → Result Chunkdat
subscript_at c a = sub_chunk_ref_at c a

-- The four `operator+=`.
abbrev pub add_pair : Chunkdat → Bytes × Chunkdat → Edited
add_pair c a = add_to_map c a.0 a.1

abbrev pub add_pairs : Chunkdat → List (Bytes × Chunkdat) → Edited
add_pairs c a = add_all_to_map c a

abbrev pub add_element : Chunkdat → Chunkdat → Edited
add_element c a = add_to_list c a

abbrev pub add_elements : Chunkdat → List Chunkdat → Edited
add_elements c a = add_all_to_list c a

-- What `operator+`, `operator*` and `operator-` share: they change a copy of their first argument, and
-- return it.
unfoldable pub on_copy : (Chunkdat → Edited) → Chunkdat → Result Chunkdat
unfolding copy
on_copy change a =
    let r = change (copy a) in elim r.thrown [ none ↦ ok r.result | some e ↦ thrown e ]

-- The four `operator+`.
unfoldable pub plus_pair : Chunkdat → Bytes × Chunkdat → Result Chunkdat
unfolding on_copy add_to_map
plus_pair a b = on_copy (λ ret. add_pair ret b) a

unfoldable pub plus_pairs : Chunkdat → List (Bytes × Chunkdat) → Result Chunkdat
unfolding on_copy add_all_to_map
plus_pairs a b = on_copy (λ ret. add_pairs ret b) a

unfoldable pub plus_element : Chunkdat → Chunkdat → Result Chunkdat
unfolding on_copy add_to_list
plus_element a b = on_copy (λ ret. add_element ret b) a

unfoldable pub plus_elements : Chunkdat → List Chunkdat → Result Chunkdat
unfolding on_copy add_all_to_list
plus_elements a b = on_copy (λ ret. add_elements ret b) a

-- `operator*`, which is `concatenate`.
unfoldable pub times_chunk : Chunkdat → Chunkdat → Result Chunkdat
unfolding on_copy concatenate
times_chunk a b = on_copy (λ ret. concatenate ret b) a

-- The two `operator-`, which are `erase`.
unfoldable pub minus_key : Chunkdat → Bytes → Result Chunkdat
unfolding on_copy erase
minus_key a b = on_copy (λ ret. erase ret b) a

unfoldable pub minus_index : Chunkdat → ℕ → Result Chunkdat
unfolding on_copy erase_index
minus_index a b = on_copy (λ ret. erase_index ret b) a

-- The function `merge`. Its first argument is a copy, and what it returns is a copy of that.
unfoldable pub merge_copies : Chunkdat → Chunkdat → Bool → Result Chunkdat
unfolding copy
merge_copies a b overwrite =
    let r = merge overwrite (copy a) b in
    elim r.thrown [ none ↦ ok (copy r.result) | some e ↦ thrown e ]

-- `operator==` on a chunk and a C string.
unfoldable pub equals_text : Chunkdat → Bytes → Bool
equals_text a b = equal (default_strval a) b
