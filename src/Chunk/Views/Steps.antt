-- ===== src/Chunk/Views/Steps.antt =====
-- Each of the members of `chunkdat` that change a chunk, against what it promises.
use ztd.Base.{
  ℕ, zero, suc, ◌++◌, ltb, Bool, true, false, none, some, [], ◌∷◌, length, take, drop,
  if◌then◌else◌, ◌≡◌, refl, arith, ap, sym, ◌∙◌, append_assoc, append-nil, Option-cases, inl, inr,
  Bool-cases,
}
use mathlib.Core.Path.{fun_ext}
use ztd.Base.Text.{Bytes, equal, equal_iff}
use ztd.Chunk.{
  no_trace, Chunkdat, Trace, Values, Items, Edited, chunkdat, null, chunk_string, chunk_map,
  chunk_list, value, no_values, item, no_items,
}
use ztd.Chunk.Containers.{find, place, remove, push_back, size, erase_at}
use ztd.Chunk.Containers.Laws.{find-place}
use ztd.Chunk.Edit.{
  add_to_map, add_to_list, add_values, add_items, erase, erase_index, concatenate, merge,
  merge_into, merge_values,
}
use ztd.Chunk.Maps.{add_to_map_fresh, add_to_map_taken}
use ztd.Chunk.Merge.Lookup.{find-merge_values, find-After}
use ztd.Chunk.Merge.Total.{merge-overwrite_total}
use ztd.Chunk.Ordered.{IsOrdered, ValuesIsOrdered}
use ztd.Chunk.Views.{
  Told, mapping, sequence, elements, lookups, view_of, changed, add_told, erase_told, join_told,
  concatenate_told, overwrite_told,
}

abbrev pub threw : Edited → Bool
threw r = elim r.thrown [ none ↦ false | some e ↦ true ]

-- The chunk behind the call has the view that was promised, and the call throws as promised.
pub record Keeps (r : Edited) (t : Told) : Type 0 where
  pub view : view_of r.result ≡ t.0
  pub throws : threw r ≡ t.1

lookups-place :
    (k : Bytes) (d : Chunkdat) (m : Values)
    → find k m ≡ none
    → lookups (place k d m) ≡ changed (lookups m) k (some d)
lookups-place k d m f = fun_ext λ j. find-place j k d m f

find-remove :
    (j k : Bytes) (m : Values)
    → ValuesIsOrdered m
    → find j (remove k m) ≡ (if equal k j then none else find j m)
unfolding find remove
find-remove j k no_values o = ground arith
find-remove j k (value i d m) o =
    ground (arith, equal_iff i k, equal_iff i j, equal_iff k j, find-remove j k m, find-After i m)

pub elements-push_back :
    (l : Items) (d : Chunkdat) → elements (push_back l d) ≡ elements l ++ d ∷ []
unfolding push_back
elements-push_back no_items d = refl
elements-push_back (item e l) d = ap (e ∷◌) (elements-push_back l d)

length-elements : (l : Items) → length (elements l) ≡ size l
unfolding size
length-elements no_items = refl
length-elements (item d l) = ap suc (length-elements l)

elements-erase_at :
    (l : Items) (i : ℕ) → elements (erase_at l i) ≡ take i (elements l) ++ drop (suc i) (elements l)
unfolding erase_at
elements-erase_at no_items zero = refl
elements-erase_at no_items (suc i) = refl
elements-erase_at (item d l) zero = refl
elements-erase_at (item d l) (suc i) = ap (d ∷◌) (elements-erase_at l i)

pub add_to_map-Keeps :
    (t : Trace) (m : Values) (name : Bytes) (val : Chunkdat)
    → Keeps (add_to_map (chunkdat t (chunk_map m)) name val) (add_told (lookups m) name val)
add_to_map-Keeps t m name val = elim (Option-cases (find name m)) [
  | inl f ↦
      rw (add_to_map_fresh t m name val f, add_told, f)
        (record { view = ap mapping (lookups-place name val m f); throws = refl })
  | inr (d, f) ↦
      rw (add_to_map_taken t m name val (λ e. cc), add_told, f)
        (record { view = refl; throws = refl })
]

pub erase-Keeps :
    (t : Trace) (m : Values) (key : Bytes)
    → ValuesIsOrdered m
    → Keeps (erase (chunkdat t (chunk_map m)) key) (erase_told (lookups m) key)
unfolding erase
erase-Keeps t m key o = elim (Option-cases (find key m)) [
  | inl f ↦ rw (erase, erase_told, f) (record { view = refl; throws = refl })
  | inr (d, f) ↦
      rw (erase, erase_told, f)
        (record { view = ap mapping (fun_ext λ j. find-remove j key m o); throws = refl })
]

pub erase_index-Keeps :
    (t : Trace) (l : Items) (i : ℕ)
    → Keeps (erase_index (chunkdat t (chunk_list l)) i) (
        if ltb i (length (elements l))
        then (sequence (take i (elements l) ++ drop (suc i) (elements l)), false)
        else (sequence (elements l), true))
unfolding erase_index
erase_index-Keeps t l i = rw (length-elements l) (elim (Bool-cases (ltb i (size l))) [
  | inl h ↦ rw h (record { view = ap sequence (elements-erase_at l i); throws = refl })
  | inr h ↦ rw h (record { view = refl; throws = refl })
])

pub add_items-Keeps :
    (t : Trace) (l k : Items)
    → Keeps (add_items (chunkdat t (chunk_list l)) k) (sequence (elements l ++ elements k), false)
unfolding add_items add_to_list
add_items-Keeps t l no_items = record {
  view = ap sequence (sym (append-nil (elements l)));
  throws = refl;
}
add_items-Keeps t l (item d k) =
    let r = add_items-Keeps t (push_back l d) k in
    record {
      view =
          r.view
          ∙ ap (λ xs. sequence (xs ++ elements k)) (elements-push_back l d)
          ∙ ap sequence (append_assoc (elements l) (d ∷ []) (elements k));
      throws = r.throws;
    }

pub add_values-Keeps :
    (t : Trace) (m n : Values)
    → Keeps (add_values (chunkdat t (chunk_map m)) n) (join_told (lookups m) n)
unfolding add_values
add_values-Keeps t m no_values = record { view = refl; throws = refl }
add_values-Keeps t m (value k d n) = elim (Option-cases (find k m)) [
  | inl f ↦
      rw (add_to_map_fresh t m k d f, join_told, f, ← lookups-place k d m f)
        (add_values-Keeps t (place k d m) n)
  | inr (e, f) ↦
      rw (add_to_map_taken t m k d (λ e. cc), join_told, f) (record { view = refl; throws = refl })
]

pub concatenate-Keeps :
    (c chk : Chunkdat) → Keeps (concatenate c chk) (concatenate_told (view_of c) chk)
unfolding concatenate
concatenate-Keeps (chunkdat t null) chk = record { view = refl; throws = refl }
concatenate-Keeps (chunkdat t (chunk_map m)) (chunkdat u (chunk_map n)) = add_values-Keeps t m n
concatenate-Keeps (chunkdat t (chunk_list l)) (chunkdat u (chunk_list k)) = add_items-Keeps t l k
concatenate-Keeps (chunkdat t (chunk_string x)) (chunkdat u null) = record {
  view = refl;
  throws = refl;
}
concatenate-Keeps (chunkdat t (chunk_string x)) (chunkdat u (chunk_string y)) = record {
  view = refl;
  throws = refl;
}
concatenate-Keeps (chunkdat t (chunk_string x)) (chunkdat u (chunk_map y)) = record {
  view = refl;
  throws = refl;
}
concatenate-Keeps (chunkdat t (chunk_string x)) (chunkdat u (chunk_list y)) = record {
  view = refl;
  throws = refl;
}
concatenate-Keeps (chunkdat t (chunk_map x)) (chunkdat u null) = record {
  view = refl;
  throws = refl;
}
concatenate-Keeps (chunkdat t (chunk_map x)) (chunkdat u (chunk_string y)) = record {
  view = refl;
  throws = refl;
}
concatenate-Keeps (chunkdat t (chunk_map x)) (chunkdat u (chunk_list y)) = record {
  view = refl;
  throws = refl;
}
concatenate-Keeps (chunkdat t (chunk_list x)) (chunkdat u null) = record {
  view = refl;
  throws = refl;
}
concatenate-Keeps (chunkdat t (chunk_list x)) (chunkdat u (chunk_string y)) = record {
  view = refl;
  throws = refl;
}
concatenate-Keeps (chunkdat t (chunk_list x)) (chunkdat u (chunk_map y)) = record {
  view = refl;
  throws = refl;
}

merge_values-overwrite_total : (m n : Values) → (merge_values true m n).thrown ≡ none
merge_values-overwrite_total m n =
    unfold merge_into in
    merge-overwrite_total (chunkdat no_trace (chunk_map m)) (chunkdat no_trace (chunk_map n))

pub merge-Keeps :
    (c chk : Chunkdat) → IsOrdered chk → Keeps (merge true c chk) (overwrite_told (view_of c) chk)
unfolding merge_into
merge-Keeps (chunkdat t (chunk_map m)) (chunkdat u (chunk_map n)) o =
    let e = merge_values-overwrite_total m n in
    record { view = ap mapping (fun_ext λ j. find-merge_values true j m n o e); throws = rw e refl }
merge-Keeps (chunkdat t (chunk_list l)) (chunkdat u (chunk_list k)) o = add_items-Keeps t l k
merge-Keeps (chunkdat t null) (chunkdat u null) o = record { view = refl; throws = refl }
merge-Keeps (chunkdat t null) (chunkdat u (chunk_string y)) o = record {
  view = refl;
  throws = refl;
}
merge-Keeps (chunkdat t null) (chunkdat u (chunk_map y)) o = record { view = refl; throws = refl }
merge-Keeps (chunkdat t null) (chunkdat u (chunk_list y)) o = record { view = refl; throws = refl }
merge-Keeps (chunkdat t (chunk_string x)) (chunkdat u null) o = record {
  view = refl;
  throws = refl;
}
merge-Keeps (chunkdat t (chunk_string x)) (chunkdat u (chunk_string y)) o = record {
  view = refl;
  throws = refl;
}
merge-Keeps (chunkdat t (chunk_string x)) (chunkdat u (chunk_map y)) o = record {
  view = refl;
  throws = refl;
}
merge-Keeps (chunkdat t (chunk_string x)) (chunkdat u (chunk_list y)) o = record {
  view = refl;
  throws = refl;
}
merge-Keeps (chunkdat t (chunk_map x)) (chunkdat u null) o = record { view = refl; throws = refl }
merge-Keeps (chunkdat t (chunk_map x)) (chunkdat u (chunk_string y)) o = record {
  view = refl;
  throws = refl;
}
merge-Keeps (chunkdat t (chunk_map x)) (chunkdat u (chunk_list y)) o = record {
  view = refl;
  throws = refl;
}
merge-Keeps (chunkdat t (chunk_list x)) (chunkdat u null) o = record { view = refl; throws = refl }
merge-Keeps (chunkdat t (chunk_list x)) (chunkdat u (chunk_string y)) o = record {
  view = refl;
  throws = refl;
}
merge-Keeps (chunkdat t (chunk_list x)) (chunkdat u (chunk_map y)) o = record {
  view = refl;
  throws = refl;
}
