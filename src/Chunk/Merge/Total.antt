-- ===== src/Chunk/Merge/Total.antt =====
-- `chunkdat::merge` of src/filedat.cpp with `overwrite`, and whether it throws.
use ztd.Base.{◌≡◌, refl, true, Option-cases, inl, inr, none}
use ztd.Chunk.{
  Chunkdat, ChunkAbstract, Trace, Values, Items, Edited, chunkdat, null, chunk_string, chunk_map,
  chunk_list, value, no_values, item, no_items,
}
use ztd.Base.Text.{Bytes}
use ztd.Chunk.Containers.{find, place, update, push_back}
use ztd.Chunk.Edit.{
  add_to_list, add_items, merge_content, merge_into, merge_values, merge_pair, merge, MergedValues,
}

pub add_items_total :
    (t : Trace) (l k : Items) → (add_items (chunkdat t (chunk_list l)) k).thrown ≡ none
unfolding add_items add_to_list
add_items_total t l no_items = refl
add_items_total t l (item d k) = add_items_total t (push_back l d) k

merge_pair_total :
    (k : Bytes) (d : Chunkdat) (m : Values) (merge_with : Chunkdat → Edited)
    (again : Values → MergedValues)
    → ((e : Chunkdat) → (merge_with e).thrown ≡ none)
    → ((m' : Values) → (again m').thrown ≡ none)
    → (merge_pair k d m merge_with again).thrown ≡ none
unfolding merge_pair
merge_pair_total k d m merge_with again h h' = elim (Option-cases (find k m)) [
  | inl f ↦ rw (f, merge_pair) (h' (place k d m))
  | inr (e, f) ↦ rw (f, merge_pair) (rw (h e) (h' (update k (merge_with e).result m)))
]

mutual
  unfolding merge_into

  merge_content_total :
      (t : Trace) (c : ChunkAbstract) (u : Trace) (d : ChunkAbstract)
      → (merge_content true t c u d).thrown ≡ none
  merge_content_total t null u null = refl
  merge_content_total t c u null = refl
  merge_content_total t null u (chunk_string w) = refl
  merge_content_total t (chunk_string x) u (chunk_string w) = refl
  merge_content_total t c u (chunk_string w) = refl
  merge_content_total t null u (chunk_map n) = refl
  merge_content_total t (chunk_map m) u (chunk_map n) = merge_values_total m n
  merge_content_total t c u (chunk_map n) = refl
  merge_content_total t null u (chunk_list k) = refl
  merge_content_total t (chunk_list l) u (chunk_list k) = add_items_total t l k
  merge_content_total t c u (chunk_list k) = refl

  merge_into_total : (c chk : Chunkdat) → (merge_into true c chk).thrown ≡ none
  merge_into_total (chunkdat t c) (chunkdat u d) = merge_content_total t c u d

  merge_values_total : (m n : Values) → (merge_values true m n).thrown ≡ none
  merge_values_total m no_values = refl
  merge_values_total m (value k d n) =
      merge_pair_total k d m (λ e. merge_into true e d) (λ m'. merge_values true m' n)
        (λ e. merge_into_total e d) (λ m'. merge_values_total m' n)

-- `merge` with `overwrite` set returns on every pair of chunks, whatever their types.
pub merge-overwrite_total : (c chk : Chunkdat) → (merge true c chk).thrown ≡ none
merge-overwrite_total = merge_into_total
