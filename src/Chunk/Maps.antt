-- ===== src/Chunk/Maps.antt =====
-- `addToMap`, `erase` and the accessors on map and list chunks, told by what an accessor reads.
use ztd.Base.{none, some, ◌≡◌, ◌≢◌, refl, arith, ℕ, ◌+◌, ◌<◌, if◌then◌else◌, ap, ◌⊎◌}
use ztd.Base.Int.{pos}
use ztd.Base.Text.{Bytes, equal, equal_refl}
use ztd.Chunk.{
  Chunkdat, Trace, Values, Items, none_type, string_type, map_type, list_type, type_of, chunkdat,
  null, chunk_string, chunk_map, chunk_list,
}
use ztd.Chunk.Access.{sub_chunk_ptr, sub_chunk_ptr_at, list_size}
use ztd.Chunk.Containers.{find, insert, place, size}
use ztd.Chunk.Containers.Laws.{
  find-place, remove-place, size-push_back, at-push_back, at-push_back_lt, erase_at-push_back,
}
use ztd.Chunk.Edit.{add_to_map, add_to_list, erase, erase_index, done, failed, shown_error, present}

pub add_to_map_fresh :
    (t : Trace) (m : Values) (name : Bytes) (val : Chunkdat)
    → find name m ≡ none
    → add_to_map (chunkdat t (chunk_map m)) name val
      ≡ done (chunkdat t (chunk_map (place name val m)))
unfolding add_to_map insert
add_to_map_fresh t m name val f = ground arith

pub add_to_map_taken :
    (t : Trace) (m : Values) (name : Bytes) (val : Chunkdat)
    → find name m ≢ none
    → add_to_map (chunkdat t (chunk_map m)) name val
      ≡ failed (chunkdat t (chunk_map m)) (shown_error (present name) (chunkdat t (chunk_map m)))
unfolding add_to_map insert
add_to_map_taken t m name val f = ground arith

-- `addToMap` on a map or an empty chunk that does not have the key returns with a map chunk, in which
-- the key is read back as the value and every other key as before.
pub add_to_map_adds :
    (c : Chunkdat) (name : Bytes) (val : Chunkdat) (j : Bytes)
    → (type_of c ≡ map_type) ⊎ (type_of c ≡ none_type)
    → sub_chunk_ptr c name ≡ none
    → let r = add_to_map c name val in
      (r.thrown ≡ none)
      × (type_of r.result ≡ map_type)
      × (sub_chunk_ptr r.result j ≡ (if equal name j then some val else sub_chunk_ptr c j))
unfolding sub_chunk_ptr
add_to_map_adds (chunkdat t null) name val j e f =
    unfold add_to_map find place in (refl, refl, refl)
add_to_map_adds (chunkdat t (chunk_map m)) name val j e f =
    rw (add_to_map_fresh t m name val f) (refl, refl, find-place j name val m f)
add_to_map_adds (chunkdat t (chunk_string w)) name val j e f = ground arith
add_to_map_adds (chunkdat t (chunk_list l)) name val j e f = ground arith

-- `addToMap` throws and changes nothing on a map that has the key, and on a string or a list.
add_to_map_refuses :
    (c : Chunkdat) (name : Bytes) (val : Chunkdat)
    → (sub_chunk_ptr c name ≢ none) ⊎ ((type_of c ≡ string_type) ⊎ (type_of c ≡ list_type))
    → let r = add_to_map c name val in (r.result ≡ c) × (r.thrown ≢ none)
unfolding sub_chunk_ptr
add_to_map_refuses (chunkdat t null) name val e = absurd (ground arith)
add_to_map_refuses (chunkdat t (chunk_map m)) name val e =
    rw (add_to_map_taken t m name val (ground arith)) (refl, λ h. cc)
add_to_map_refuses (chunkdat t (chunk_string w)) name val e = unfold add_to_map in (refl, λ h. cc)
add_to_map_refuses (chunkdat t (chunk_list l)) name val e = unfold add_to_map in (refl, λ h. cc)

-- Erasing a key that was just added to a map gives the map back, without an exception.
pub erase-add_to_map :
    (c : Chunkdat) (name : Bytes) (val : Chunkdat)
    → type_of c ≡ map_type
    → sub_chunk_ptr c name ≡ none
    → erase (add_to_map c name val).result name ≡ done c
unfolding erase add_to_map insert sub_chunk_ptr
erase-add_to_map (chunkdat t (chunk_map m)) name val e f =
    ground (arith, find-place name name val m, equal_refl name, remove-place name val m)
erase-add_to_map (chunkdat t null) name val e f = cc
erase-add_to_map _ name val e f = cc

pub add_to_list_erased :
    (t : Trace) (l : Items) (val : Chunkdat)
    → erase_index (add_to_list (chunkdat t (chunk_list l)) val).result (size l)
      ≡ done (chunkdat t (chunk_list l))
unfolding add_to_list erase_index
add_to_list_erased t l val = ground (arith, size-push_back l val, erase_at-push_back l val)

-- `addToList` on a list chunk appends: the size grows by one, the new element is the last, an element
-- before it stays, and erasing the last index undoes the call.
add_to_list_last :
    (t : Trace) (l : Items) (val : Chunkdat) (i : ℕ)
    → i < size l
    → let c = chunkdat t (chunk_list l) in
      let r = add_to_list c val in
      (r.thrown ≡ none)
      × (list_size r.result ≡ pos (size l + 1))
      × (sub_chunk_ptr_at r.result (size l) ≡ some val)
      × (sub_chunk_ptr_at r.result i ≡ sub_chunk_ptr_at c i)
      × (erase_index r.result (size l) ≡ done c)
unfolding add_to_list list_size sub_chunk_ptr_at erase_index
add_to_list_last t l val i h = (
  refl,
  ap pos (size-push_back l val),
  at-push_back l val,
  at-push_back_lt l val i h,
  add_to_list_erased t l val,
)
