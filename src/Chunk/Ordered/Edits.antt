-- ===== src/Chunk/Ordered/Edits.antt =====
-- The mutating members of `chunkdat` in src/filedat.cpp, and the order of the keys.
use ztd.Base.{zero, suc, Bool, true, false, refl, arith, ℕ, Option-cases, inl, inr}
use ztd.Base.Text.{Bytes}
use ztd.Chunk.{
  Chunkdat, ChunkAbstract, Values, Items, Edited, Trace, chunkdat, null, chunk_string, chunk_map,
  chunk_list, value, no_values, item, no_items,
}
use ztd.Chunk.Containers.{find, insert, erase_at, place}
use ztd.Chunk.Edit.{
  add_to_map, add_to_list, add_values, add_items, concatenate, merge_content, merge_into,
  merge_values, merge_pair, and_then, erase, erase_index, mismatch, string_merge, MergedValues,
}
use ztd.Chunk.Ordered.{
  IsOrdered, ContentIsOrdered, ValuesIsOrdered, ItemsIsOrdered, place-ValuesIsOrdered,
  update-ValuesIsOrdered, remove-ValuesIsOrdered, find-IsOrdered, push_back-ItemsIsOrdered,
}

pub add_to_map-IsOrdered :
    (c : Chunkdat) (name : Bytes) (val : Chunkdat)
    → IsOrdered c
    → IsOrdered val
    → IsOrdered (add_to_map c name val).result
unfolding add_to_map insert
add_to_map-IsOrdered (chunkdat t (chunk_map m)) name val o v =
    ground (arith, place-ValuesIsOrdered name val m)
add_to_map-IsOrdered (chunkdat t null) name val o v =
    place-ValuesIsOrdered name val no_values (unfold find in refl) v tt
add_to_map-IsOrdered (chunkdat t (chunk_string w)) name val o v = tt
add_to_map-IsOrdered (chunkdat t (chunk_list l)) name val o v = o

pub add_to_list-IsOrdered :
    (c val : Chunkdat) → IsOrdered c → IsOrdered val → IsOrdered (add_to_list c val).result
unfolding add_to_list
add_to_list-IsOrdered (chunkdat t (chunk_list l)) val o v = push_back-ItemsIsOrdered l val v o
add_to_list-IsOrdered (chunkdat t null) val o v = push_back-ItemsIsOrdered no_items val v tt
add_to_list-IsOrdered (chunkdat t (chunk_string w)) val o v = tt
add_to_list-IsOrdered (chunkdat t (chunk_map m)) val o v = o

and_then_inv :
    (r : Edited) (f : Chunkdat → Edited)
    → IsOrdered r.result
    → ((d : Chunkdat) → IsOrdered d → IsOrdered (f d).result)
    → IsOrdered (and_then r f).result
and_then_inv r f o keep = elim (Option-cases r.thrown) [
  | inl e ↦ rw (e, and_then) (keep r.result o)
  | inr (x, e) ↦ rw (e, and_then) o
]

pub add_values-IsOrdered :
    (c : Chunkdat) (m : Values)
    → IsOrdered c
    → ValuesIsOrdered m
    → IsOrdered (add_values c m).result
unfolding add_values
add_values-IsOrdered c no_values o v = o
add_values-IsOrdered c (value k d m) o v =
    and_then_inv (add_to_map c k d) (λ e. add_values e m) (add_to_map-IsOrdered c k d o v.1)
      λ e p. add_values-IsOrdered e m p v.2

pub add_items-IsOrdered :
    (c : Chunkdat) (l : Items) → IsOrdered c → ItemsIsOrdered l → IsOrdered (add_items c l).result
unfolding add_items
add_items-IsOrdered c no_items o v = o
add_items-IsOrdered c (item d l) o v =
    and_then_inv (add_to_list c d) (λ e. add_items e l) (add_to_list-IsOrdered c d o v.0)
      λ e p. add_items-IsOrdered e l p v.1

pub concatenate-IsOrdered :
    (c chk : Chunkdat) → IsOrdered c → IsOrdered chk → IsOrdered (concatenate c chk).result
unfolding concatenate
concatenate-IsOrdered (chunkdat t null) chk o v = v
concatenate-IsOrdered (chunkdat t (chunk_map m)) (chunkdat u (chunk_map n)) o v =
    add_values-IsOrdered (chunkdat t (chunk_map m)) n o v
concatenate-IsOrdered (chunkdat t (chunk_list l)) (chunkdat u (chunk_list k)) o v =
    add_items-IsOrdered (chunkdat t (chunk_list l)) k o v
concatenate-IsOrdered (chunkdat t (chunk_string w)) (chunkdat u (chunk_string x)) o v = tt
concatenate-IsOrdered _ _ o v = o

mismatch-IsOrdered :
    (overwrite : Bool) (c chk : Chunkdat)
    → IsOrdered c
    → IsOrdered chk
    → IsOrdered (mismatch overwrite c chk).result
mismatch-IsOrdered true c chk o v = v
mismatch-IsOrdered false c chk o v = o

string_merge-IsOrdered :
    (overwrite : Bool) (t : Trace) (v w : Bytes) → IsOrdered (string_merge overwrite t v w).result
string_merge-IsOrdered true t v w = tt
string_merge-IsOrdered false t v w = tt

merge_pair_inv :
    (k : Bytes) (d : Chunkdat) (m : Values) (merge_with : Chunkdat → Edited)
    (again : Values → MergedValues)
    → IsOrdered d
    → ValuesIsOrdered m
    → ((e : Chunkdat) → IsOrdered e → IsOrdered (merge_with e).result)
    → ((m' : Values) → ValuesIsOrdered m' → ValuesIsOrdered (again m').values)
    → ValuesIsOrdered (merge_pair k d m merge_with again).values
unfolding merge_pair
merge_pair_inv k d m merge_with again o v keep keep' = elim (Option-cases (find k m)) [
  | inl f ↦ rw (f, merge_pair) (keep' (place k d m) (place-ValuesIsOrdered k d m f o v))
  | inr (e, f) ↦
      let w =
        update-ValuesIsOrdered k (merge_with e).result m (keep e (find-IsOrdered k m f v)) v in
      elim (Option-cases (merge_with e).thrown) [
        | inl t ↦ rw (f, merge_pair) (rw (t, merge_pair) (keep' _ w))
        | inr (x, t) ↦ rw (f, merge_pair) (rw (t, merge_pair) w)
      ]
]

mutual
  unfolding merge_into

  merge_content-IsOrdered :
      (ow : Bool) (t : Trace) (c : ChunkAbstract) (u : Trace) (d : ChunkAbstract)
      → ContentIsOrdered c
      → ContentIsOrdered d
      → IsOrdered (merge_content ow t c u d).result
  merge_content-IsOrdered ow t null u null o v = tt
  merge_content-IsOrdered ow t c u null o v =
      mismatch-IsOrdered ow (chunkdat t c) (chunkdat u null) o v
  merge_content-IsOrdered ow t null u (chunk_string w) o v = tt
  merge_content-IsOrdered ow t (chunk_string x) u (chunk_string w) o v =
      string_merge-IsOrdered ow t x w
  merge_content-IsOrdered ow t c u (chunk_string w) o v =
      mismatch-IsOrdered ow (chunkdat t c) (chunkdat u (chunk_string w)) o v
  merge_content-IsOrdered ow t null u (chunk_map n) o v = v
  merge_content-IsOrdered ow t (chunk_map m) u (chunk_map n) o v = merge_values-IsOrdered ow m n o v
  merge_content-IsOrdered ow t c u (chunk_map n) o v =
      mismatch-IsOrdered ow (chunkdat t c) (chunkdat u (chunk_map n)) o v
  merge_content-IsOrdered ow t null u (chunk_list k) o v = v
  merge_content-IsOrdered ow t (chunk_list l) u (chunk_list k) o v =
      add_items-IsOrdered (chunkdat t (chunk_list l)) k o v
  merge_content-IsOrdered ow t c u (chunk_list k) o v =
      mismatch-IsOrdered ow (chunkdat t c) (chunkdat u (chunk_list k)) o v

  pub merge_into-IsOrdered :
      (ow : Bool) (c chk : Chunkdat)
      → IsOrdered c
      → IsOrdered chk
      → IsOrdered (merge_into ow c chk).result
  merge_into-IsOrdered ow (chunkdat t c) (chunkdat u d) o v = merge_content-IsOrdered ow t c u d o v

  merge_values-IsOrdered :
      (ow : Bool) (m n : Values)
      → ValuesIsOrdered m
      → ValuesIsOrdered n
      → ValuesIsOrdered (merge_values ow m n).values
  merge_values-IsOrdered ow m no_values o v = o
  merge_values-IsOrdered ow m (value k d n) o v =
      merge_pair_inv k d m (λ e. merge_into ow e d) (λ m'. merge_values ow m' n) v.1 o
        (λ e p. merge_into-IsOrdered ow e d p v.1) (λ m' p. merge_values-IsOrdered ow m' n p v.2)

erase_at-ItemsIsOrdered : (l : Items) (i : ℕ) → ItemsIsOrdered l → ItemsIsOrdered (erase_at l i)
unfolding erase_at
erase_at-ItemsIsOrdered no_items i v = tt
erase_at-ItemsIsOrdered (item d l) zero v = v.1
erase_at-ItemsIsOrdered (item d l) (suc i) v = (v.0, erase_at-ItemsIsOrdered l i v.1)

pub erase-IsOrdered : (c : Chunkdat) (key : Bytes) → IsOrdered c → IsOrdered (erase c key).result
unfolding erase
erase-IsOrdered (chunkdat t (chunk_map m)) key o = ground (arith, remove-ValuesIsOrdered key m)
erase-IsOrdered _ key o = o

pub erase_index-IsOrdered :
    (c : Chunkdat) (i : ℕ) → IsOrdered c → IsOrdered (erase_index c i).result
unfolding erase_index
erase_index-IsOrdered (chunkdat t (chunk_list l)) i o = ground (arith, erase_at-ItemsIsOrdered l i)
erase_index-IsOrdered _ i o = o
