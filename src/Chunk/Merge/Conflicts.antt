-- ===== src/Chunk/Merge/Conflicts.antt =====
-- `chunkdat::merge` of src/filedat.cpp without `overwrite`, and when it throws.
use ztd.Base.{Option, false, none, some, ◌≡◌, ◌↔◌, refl, sym, arith, ◌∙◌, Option-cases, inl, inr}
use ztd.Base.Text.{Bytes, equal, equal_iff, order_refl, order}
use ztd.Chunk.{
  Chunkdat, ChunkAbstract, Trace, Values, Edited, chunkdat, null, chunk_string, chunk_map,
  chunk_list, value, no_values,
}
use ztd.Chunk.Containers.{find, place, update}
use ztd.Chunk.Containers.Laws.{find-place, find-update}
use ztd.Chunk.Edit.{merge_content, merge_into, merge_values, merge_pair, merge, MergedValues}
use ztd.Chunk.Merge.Lookup.{merge_pair_fresh}
use ztd.Chunk.Merge.Total.{add_items_total}
use ztd.Chunk.Ordered.{After, IsOrdered, ContentIsOrdered, ValuesIsOrdered}
use Prim.Native.Nat.{Ordering}

-- A predicate on the chunk, if there is one.
abbrev pub IfThere : (Chunkdat → Type 0) → Option Chunkdat → Type 0
IfThere P none = Unit
IfThere P (some c) = P c

-- The second chunk merges into the first without a conflict: the first is empty, both are lists, or
-- both are maps, and each pair of the second whose key is in the first merges into what is there.
unfoldable mutual
  pub MergesContent : ChunkAbstract → ChunkAbstract → Type 0
  MergesContent null d = Unit
  MergesContent (chunk_map m) (chunk_map n) = MergesValues m n
  MergesContent (chunk_list l) (chunk_list k) = Unit
  MergesContent c d = ⊥

  pub Merges : Chunkdat → Chunkdat → Type 0
  Merges (chunkdat t c) (chunkdat u d) = MergesContent c d

  pub MergesValues : Values → Values → Type 0
  MergesValues m no_values = Unit
  MergesValues m (value k d n) = IfThere (λ e. Merges e d) (find k m) × MergesValues m n

equal-lt : (k j : Bytes) → order k j ≡ Ordering.lt → equal k j ≡ false
equal-lt k j h = ground (arith, equal_iff k j, order_refl k)

-- Maps that agree but for a key in front of those of `n` merge alike.
MergesValues-After :
    (k : Bytes) (m m' n : Values)
    → ((j : Bytes) → equal k j ≡ false → find j m' ≡ find j m)
    → After k n
    → MergesValues m' n ≡ MergesValues m n
unfolding MergesValues
MergesValues-After k m m' no_values same a = refl
MergesValues-After k m m' (value j d n) same a =
    rw (same j (equal-lt k j a.0)) (rw (MergesValues-After k m m' n same a.1))

merge_pair_iff :
    (k : Bytes) (d : Chunkdat) (m : Values) (merge_with : Chunkdat → Edited)
    (again : Values → MergedValues) (P : Chunkdat → Type 0) (Q : Type 0)
    → ((e : Chunkdat) → ((merge_with e).thrown ≡ none) ↔ P e)
    → ((m' : Values)
        → ((j : Bytes) → equal k j ≡ false → find j m' ≡ find j m)
        → ((again m').thrown ≡ none) ↔ Q)
    → ((merge_pair k d m merge_with again).thrown ≡ none) ↔ (IfThere P (find k m) × Q)
unfolding merge_pair
merge_pair_iff k d m merge_with again P Q h h' = elim (Option-cases (find k m)) [
  | inl f ↦
      let q = h' (place k d m) (λ j e. find-place j k d m f ∙ simp e) in
      rw (merge_pair_fresh k d m merge_with again f, f) (λ t. (tt, q.0 t), λ t. q.1 t.1)
  | inr (e, f) ↦
      let q =
        h' (update k (merge_with e).result m)
          (λ j e'. find-update j k (merge_with e).result m f ∙ simp e') in
      elim (Option-cases (merge_with e).thrown) [
        | inl s ↦ rw (f, merge_pair) (rw s (λ t. ((h e).0 s, q.0 t), λ t. q.1 t.1))
        | inr (x, s) ↦ rw (f, merge_pair) (rw s (λ t. cc, λ t. sym s ∙ (h e).1 t.0))
      ]
]

mutual
  unfolding merge_into Merges

  merge_content_iff :
      (t : Trace) (c : ChunkAbstract) (u : Trace) (d : ChunkAbstract)
      → ContentIsOrdered d
      → ((merge_content false t c u d).thrown ≡ none) ↔ MergesContent c d
  merge_content_iff t null u null o = (λ h. tt, λ h. refl)
  merge_content_iff t null u (chunk_string w) o = (λ h. tt, λ h. refl)
  merge_content_iff t null u (chunk_map n) o = (λ h. tt, λ h. refl)
  merge_content_iff t null u (chunk_list k) o = (λ h. tt, λ h. refl)
  merge_content_iff t (chunk_string v) u null o = (λ h. cc, λ h. absurd h)
  merge_content_iff t (chunk_string v) u (chunk_string w) o = (λ h. cc, λ h. absurd h)
  merge_content_iff t (chunk_string v) u (chunk_map n) o = (λ h. cc, λ h. absurd h)
  merge_content_iff t (chunk_string v) u (chunk_list k) o = (λ h. cc, λ h. absurd h)
  merge_content_iff t (chunk_map m) u null o = (λ h. cc, λ h. absurd h)
  merge_content_iff t (chunk_map m) u (chunk_string w) o = (λ h. cc, λ h. absurd h)
  merge_content_iff t (chunk_map m) u (chunk_map n) o = merge_values_iff m n o
  merge_content_iff t (chunk_map m) u (chunk_list k) o = (λ h. cc, λ h. absurd h)
  merge_content_iff t (chunk_list l) u null o = (λ h. cc, λ h. absurd h)
  merge_content_iff t (chunk_list l) u (chunk_string w) o = (λ h. cc, λ h. absurd h)
  merge_content_iff t (chunk_list l) u (chunk_map n) o = (λ h. cc, λ h. absurd h)
  merge_content_iff t (chunk_list l) u (chunk_list k) o = (λ h. tt, λ h. add_items_total t l k)

  merge_into_iff :
      (c chk : Chunkdat) → IsOrdered chk → ((merge_into false c chk).thrown ≡ none) ↔ Merges c chk
  merge_into_iff (chunkdat t c) (chunkdat u d) o = merge_content_iff t c u d o

  merge_values_iff :
      (m n : Values)
      → ValuesIsOrdered n
      → ((merge_values false m n).thrown ≡ none) ↔ MergesValues m n
  merge_values_iff m no_values o = (λ h. tt, λ h. refl)
  merge_values_iff m (value k d n) o =
      merge_pair_iff k d m (λ e. merge_into false e d) (λ m'. merge_values false m' n)
        (λ e. Merges e d) (MergesValues m n) (λ e. merge_into_iff e d o.1)
        λ m' same. rw (← MergesValues-After k m m' n same o.0) (merge_values_iff m' n o.2)

-- `merge` without `overwrite`, of a chunk whose maps are in key order, returns exactly when there is no
-- conflict: the chunk to merge into is empty, both are lists, or both are maps and there is no
-- conflict between any two chunks that they hold under the same key.
pub merge-Merges_iff :
    (c chk : Chunkdat) → IsOrdered chk → ((merge false c chk).thrown ≡ none) ↔ Merges c chk
merge-Merges_iff = merge_into_iff
