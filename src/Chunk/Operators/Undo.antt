-- ===== src/Chunk/Operators/Undo.antt =====
-- `operator-` of include/filedat.hpp behind `operator+`.
use ztd.Base.{none, ◌≡◌, refl, ap, ◌∙◌, inl}
use ztd.Base.Text.{Bytes}
use ztd.Chunk.{Chunkdat, Trace, Items, Edited, map_type, type_of, chunkdat, chunk_list}
use ztd.Chunk.Access.{sub_chunk_ptr}
use ztd.Chunk.Containers.{size}
use ztd.Chunk.Copy.{copy-IsOrdered}
use ztd.Chunk.Edit.{add_to_map, add_to_list, erase, erase_index, done}
use ztd.Chunk.Maps.{add_to_map_adds, erase-add_to_map, add_to_list_erased}
use ztd.Chunk.Operators.{on_copy, plus_pair, plus_element, minus_key, minus_index}
use ztd.Chunk.Ordered.Edits.{add_to_map-IsOrdered, add_to_list-IsOrdered}
use ztd.Chunk.Ordered.{IsOrdered}
use ztd.Error.{ok, ◌>>=◌}

on_copy_returns :
    (change : Chunkdat → Edited) (c : Chunkdat)
    → IsOrdered c
    → (change c).thrown ≡ none
    → on_copy change c ≡ ok (change c).result
unfolding on_copy
on_copy_returns change c o e =
    rw (copy-IsOrdered c o, on_copy) (simp e (ap (λ d. ok (change d).result) (copy-IsOrdered c o)))

-- A change that takes back another one, on copies.
on_copy-on_copy :
    (change back : Chunkdat → Edited) (c : Chunkdat)
    → IsOrdered c
    → IsOrdered (change c).result
    → (change c).thrown ≡ none
    → back (change c).result ≡ done c
    → (on_copy change c >>= λ d. on_copy back d) ≡ ok c
on_copy-on_copy change back c o o' e b =
    rw (on_copy_returns change c o e) (on_copy_returns back (change c).result o' (simp b) ∙ simp b)

-- For chunks whose maps are in key order: a map chunk without the key, plus the key and a value, minus
-- the key, is the chunk; so is a list chunk plus an element, minus its index.
pub minus-plus :
    (c val : Chunkdat) (key : Bytes) (t : Trace) (l : Items)
    → IsOrdered c
    → IsOrdered val
    → IsOrdered (chunkdat t (chunk_list l))
    → type_of c ≡ map_type
    → sub_chunk_ptr c key ≡ none
    → ((plus_pair c (key, val) >>= λ d. minus_key d key) ≡ ok c)
      × ((plus_element (chunkdat t (chunk_list l)) val >>= λ d. minus_index d (size l))
          ≡ ok (chunkdat t (chunk_list l)))
unfolding plus_pair minus_key plus_element minus_index
minus-plus c val key t l o v o' h k = (
  on_copy-on_copy (λ d. add_to_map d key val) (λ d. erase d key) c o
      (add_to_map-IsOrdered c key val o v) (add_to_map_adds c key val key (inl h) k).0
      (erase-add_to_map c key val h k),
  on_copy-on_copy (λ d. add_to_list d val) (λ d. erase_index d (size l)) (chunkdat t (chunk_list l))
      o' (add_to_list-IsOrdered (chunkdat t (chunk_list l)) val o' v) (unfold add_to_list in refl)
      (add_to_list_erased t l val),
)
