-- ===== src/Chunk/Edit.antt =====
-- The mutating members of `chunkdat`: `addToMap`, `addToList`, `concatenate`, `merge` and `erase`.
-- Each returns the chunk as it stands when the call returns or throws. The argument is taken to be
-- another object than `*this`.
use ztd.Base.{Option, none, some, Bool, ℕ, [], ◌∷◌, ◌++◌, List, ltb, if◌then◌else◌}
use ztd.Base.Int.{minus_one}
use ztd.Base.Text.{Bytes, codes}
use ztd.Chunk.{
  Chunkdat, ChunkAbstract, Trace, Values, Items, Edited, chunkdat, null, chunk_string, chunk_map,
  chunk_list, value, no_values, item, no_items,
}
use ztd.Chunk.Containers.{find, insert, remove, update, push_back, size, erase_at, place}
use ztd.Chunk.Print.{default_strval}
use ztd.Error.{FormatError, format_error, to_string}

abbrev pub done : Chunkdat → Edited
done c = record { result = c; thrown = none }

abbrev pub failed : Chunkdat → FormatError → Edited
failed c e = record { result = c; thrown = some e }

-- The message of an error that shows the whole chunk.
abbrev pub shown_error : Bytes → Chunkdat → FormatError
shown_error what c = format_error what [] (default_strval c) minus_one

abbrev pub present : Bytes → Bytes
present name = codes "Key '" ++ (name ++ codes "' already present")

unfoldable pub add_to_map : Chunkdat → Bytes → Chunkdat → Edited
add_to_map (chunkdat t (chunk_map m)) name val = elim (insert name val m) [
  | some m' ↦ done (chunkdat t (chunk_map m'))
  | none ↦ failed (chunkdat t (chunk_map m)) (shown_error (present name) (chunkdat t (chunk_map m)))
]
add_to_map (chunkdat t null) name val = done (chunkdat t (chunk_map (place name val no_values)))
add_to_map c name val = failed c (shown_error (codes "Cannot add keys to non-map chunks") c)

unfoldable pub add_to_list : Chunkdat → Chunkdat → Edited
add_to_list (chunkdat t (chunk_list l)) val = done (chunkdat t (chunk_list (push_back l val)))
add_to_list (chunkdat t null) val = done (chunkdat t (chunk_list (push_back no_items val)))
add_to_list c val = failed c (shown_error (codes "Cannot add elements to non-list chunks") c)

-- The next call of a loop of calls on one chunk: an exception ends the loop.
abbrev pub and_then : Edited → (Chunkdat → Edited) → Edited
and_then r f = elim r.thrown [ none ↦ f r.result | some e ↦ r ]

-- The overloads on a vector.
unfoldable pub add_all_to_map : Chunkdat → List (Bytes × Chunkdat) → Edited
add_all_to_map c [] = done c
add_all_to_map c ((name, val) ∷ vec) = and_then (add_to_map c name val) λ d. add_all_to_map d vec

unfoldable pub add_all_to_list : Chunkdat → List Chunkdat → Edited
add_all_to_list c [] = done c
add_all_to_list c (val ∷ vec) = and_then (add_to_list c val) λ d. add_all_to_list d vec

-- The loops of `concatenate` over the pairs of a map and the elements of a list.
unfoldable pub add_values : Chunkdat → Values → Edited
add_values c no_values = done c
add_values c (value name val m) = and_then (add_to_map c name val) λ d. add_values d m

unfoldable pub add_items : Chunkdat → Items → Edited
add_items c no_items = done c
add_items c (item val l) = and_then (add_to_list c val) λ d. add_items d l

-- `set(chunkdat const&)` is a deep copy, its trace included.
unfoldable pub concatenate : Chunkdat → Chunkdat → Edited
concatenate (chunkdat t null) chk = done chk
concatenate (chunkdat t (chunk_map m)) (chunkdat u (chunk_map n)) =
    add_values (chunkdat t (chunk_map m)) n
concatenate (chunkdat t (chunk_list l)) (chunkdat u (chunk_list k)) =
    add_items (chunkdat t (chunk_list l)) k
concatenate (chunkdat t (chunk_string v)) (chunkdat u (chunk_string w)) =
    done (chunkdat t (chunk_string (v ++ w)))
concatenate c chk =
    failed c (format_error (codes "Cannot concatenate chunks of different types") [] [] minus_one)

-- What `merge` leaves of a map, and the exception.
pub record MergedValues : Type 0 where
  pub values : Values
  pub thrown : Option FormatError

-- A type mismatch: the argument replaces the chunk, or the call throws.
abbrev pub mismatch : Bool → Chunkdat → Chunkdat → Edited
mismatch overwrite c chk =
    if overwrite
    then done chk
    else failed c (format_error (codes "Cannot merge chunks of different types") [] [] minus_one)

abbrev pub string_merge : Bool → Trace → Bytes → Bytes → Edited
string_merge overwrite t v w =
    if overwrite
    then done (chunkdat t (chunk_string w))
    else failed (chunkdat t (chunk_string v))
        (format_error (codes "Cannot merge string chunks") [] [] minus_one)

abbrev pub merge_done : MergedValues → Trace → Edited
merge_done r t = record { result = chunkdat t (chunk_map r.values); thrown = r.thrown }

-- One round of the loop over `ci->values`: a new key is added, a chunk that is there is merged into.
-- `again` is the rest of the loop, which an exception leaves out.
unfoldable pub merge_pair :
    Bytes → Chunkdat → Values → (Chunkdat → Edited) → (Values → MergedValues) → MergedValues
merge_pair k d m merge_with again = elim (find k m) [
  | none ↦ again (place k d m)
  | some e ↦
      let r = merge_with e in
      elim r.thrown [
        | none ↦ again (update k r.result m)
        | some x ↦ record { values = update k r.result m; thrown = some x }
      ]
]

-- `merge`, on the two contents and their traces, and its loop over the pairs of `chk`.
unfoldable mutual
  pub merge_content : Bool → Trace → ChunkAbstract → Trace → ChunkAbstract → Edited
  merge_content overwrite t null u null = done (chunkdat u null)
  merge_content overwrite t c u null = mismatch overwrite (chunkdat t c) (chunkdat u null)
  merge_content overwrite t null u (chunk_string w) = done (chunkdat u (chunk_string w))
  merge_content overwrite t (chunk_string v) u (chunk_string w) = string_merge overwrite t v w
  merge_content overwrite t c u (chunk_string w) =
      mismatch overwrite (chunkdat t c) (chunkdat u (chunk_string w))
  merge_content overwrite t null u (chunk_map n) = done (chunkdat u (chunk_map n))
  merge_content overwrite t (chunk_map m) u (chunk_map n) =
      merge_done (merge_values overwrite m n) t
  merge_content overwrite t c u (chunk_map n) =
      mismatch overwrite (chunkdat t c) (chunkdat u (chunk_map n))
  merge_content overwrite t null u (chunk_list k) = done (chunkdat u (chunk_list k))
  merge_content overwrite t (chunk_list l) u (chunk_list k) =
      add_items (chunkdat t (chunk_list l)) k
  merge_content overwrite t c u (chunk_list k) =
      mismatch overwrite (chunkdat t c) (chunkdat u (chunk_list k))

  pub merge_into : Bool → Chunkdat → Chunkdat → Edited
  merge_into overwrite (chunkdat t c) (chunkdat u d) = merge_content overwrite t c u d

  pub merge_values : Bool → Values → Values → MergedValues
  merge_values overwrite m no_values = record { values = m; thrown = none }
  merge_values overwrite m (value k d n) =
      merge_pair k d m (λ e. merge_into overwrite e d) (λ m'. merge_values overwrite m' n)

-- `merge(chk, overwrite)`.
abbrev pub merge : Bool → Chunkdat → Chunkdat → Edited
merge = merge_into

abbrev key_absent : Bytes → Bytes
key_absent key = codes "Key '" ++ (key ++ codes "' not present")

-- `erase(key)`.
unfoldable pub erase : Chunkdat → Bytes → Edited
erase (chunkdat t (chunk_map m)) key = elim (find key m) [
  | some _ ↦ done (chunkdat t (chunk_map (remove key m)))
  | none ↦
      failed (chunkdat t (chunk_map m)) (shown_error (key_absent key) (chunkdat t (chunk_map m)))
]
erase c key = failed c (shown_error (codes "Cannot erase element from non-map chunk") c)

abbrev out_of_bounds : ℕ → ℕ → Bytes
out_of_bounds index size =
    codes "Cannot erase out of bonds: "
    ++ (to_string index ++ (codes " in size " ++ to_string size))

-- `erase(index)`.
unfoldable pub erase_index : Chunkdat → ℕ → Edited
erase_index (chunkdat t (chunk_list l)) index =
    if ltb index (size l)
    then done (chunkdat t (chunk_list (erase_at l index)))
    else failed (chunkdat t (chunk_list l))
        (shown_error (out_of_bounds index (size l)) (chunkdat t (chunk_list l)))
erase_index c index = failed c (shown_error (codes "Cannot erase element from non-list chunk") c)
