-- ===== src/Chunk/Merge/Lookup.antt =====
-- `merge` and `concatenate` on map chunks, told by the keys.
use ztd.Base.{
  Bool, Option, none, some, ◌≡◌, ◌↔◌, refl, arith, ◌∙◌, if◌then◌else◌, Option-cases, inl, inr,
  Bool-cases,
}
use ztd.Base.Text.{Bytes, equal, equal_iff, order_refl}
use ztd.Chunk.{Chunkdat, Trace, Values, Edited, chunkdat, chunk_map, value, no_values}
use ztd.Chunk.Containers.{find, place, update}
use ztd.Chunk.Containers.Laws.{find-place, find-update}
use ztd.Chunk.Edit.{
  add_values, concatenate, merge_into, merge_values, merge_pair, merge, MergedValues, done,
}
use ztd.Chunk.Maps.{add_to_map_fresh, add_to_map_taken}
use ztd.Chunk.Ordered.{After, ValuesIsOrdered}

-- No key of the second map is in the first.
abbrev pub Disjoint : Values → Values → Type 0
Disjoint m no_values = Unit
Disjoint m (value k d n) = (find k m ≡ none) × Disjoint m n

-- The pairs of `n` added to `m`, one by one.
abbrev pub place_all : Values → Values → Values
place_all m no_values = m
place_all m (value k d n) = place_all (place k d m) n

pub find-After : (k : Bytes) (n : Values) → After k n → find k n ≡ none
unfolding find
find-After k no_values a = refl
find-After k (value j d n) a = ground (arith, equal_iff j k, order_refl k, find-After k n)

Disjoint-place :
    (k : Bytes) (d : Chunkdat) (m n : Values)
    → find k m ≡ none
    → After k n
    → Disjoint m n
    → Disjoint (place k d m) n
Disjoint-place k d m no_values f a s = tt
Disjoint-place k d m (value j e n) f a s =
    ground (arith, find-place j k d m, equal_iff k j, order_refl k, Disjoint-place k d m n)

Disjoint-place_inv :
    (k : Bytes) (d : Chunkdat) (m n : Values)
    → find k m ≡ none
    → Disjoint (place k d m) n
    → Disjoint m n
Disjoint-place_inv k d m no_values f s = tt
Disjoint-place_inv k d m (value j e n) f s =
    ground (arith, find-place j k d m, Disjoint-place_inv k d m n)

pub add_values-Disjoint :
    (t : Trace) (m n : Values)
    → ValuesIsOrdered n
    → Disjoint m n
    → add_values (chunkdat t (chunk_map m)) n ≡ done (chunkdat t (chunk_map (place_all m n)))
unfolding add_values
add_values-Disjoint t m no_values o s = refl
add_values-Disjoint t m (value k d n) o s =
    rw (add_to_map_fresh t m k d s.0)
      (add_values-Disjoint t (place k d m) n o.2 (Disjoint-place k d m n s.0 o.0 s.1))

Disjoint-of_add_values :
    (t : Trace) (m n : Values)
    → (add_values (chunkdat t (chunk_map m)) n).thrown ≡ none
    → Disjoint m n
unfolding add_values
Disjoint-of_add_values t m no_values h = tt
Disjoint-of_add_values t m (value k d n) h = elim (Option-cases (find k m)) [
  | inl f ↦ (
    f,
    Disjoint-place_inv k d m n f
        (Disjoint-of_add_values t (place k d m) n (rw (add_to_map_fresh t m k d f) at h)),
  )
  | inr (c, f) ↦ absurd (ground (arith, add_to_map_taken t m k d))
]

pub merge_pair_fresh :
    (k : Bytes) (d : Chunkdat) (m : Values) (merge_with : Chunkdat → Edited)
    (again : Values → MergedValues)
    → find k m ≡ none
    → merge_pair k d m merge_with again ≡ again (place k d m)
unfolding merge_pair
merge_pair_fresh k d m merge_with again f = rw (merge_pair, f)

pub merge_values-Disjoint :
    (ow : Bool) (m n : Values)
    → ValuesIsOrdered n
    → Disjoint m n
    → merge_values ow m n ≡ record { values = place_all m n; thrown = none }
unfolding merge_values
merge_values-Disjoint ow m no_values o s = refl
merge_values-Disjoint ow m (value k d n) o s =
    merge_pair_fresh k d m (λ e. merge_into ow e d) (λ m'. merge_values ow m' n) s.0
    ∙ merge_values-Disjoint ow (place k d m) n o.2 (Disjoint-place k d m n s.0 o.0 s.1)

-- Of two values under one key, what `merge` leaves.
abbrev pub merged : Bool → Option Chunkdat → Option Chunkdat → Option Chunkdat
merged ow none b = b
merged ow (some a) none = some a
merged ow (some a) (some b) = some (merge ow a b).result

-- What an exceptionless round does at every key.
merge_pair-find :
    (k : Bytes) (d : Chunkdat) (m : Values) (merge_with : Chunkdat → Edited)
    (again : Values → MergedValues)
    → (merge_pair k d m merge_with again).thrown ≡ none
    → (m' : Values) × (merge_pair k d m merge_with again ≡ again m')
      × ((j : Bytes)
          → find j m' ≡ (
              if equal k j
              then elim (find k m) [ none ↦ some d | some e ↦ some (merge_with e).result ]
              else find j m))
unfolding merge_pair
merge_pair-find k d m merge_with again h = elim (Option-cases (find k m)) [
  | inl f ↦
      (place k d m, merge_pair_fresh k d m merge_with again f, λ j. rw f (find-place j k d m f))
  | inr (e, f) ↦ (
    update k (merge_with e).result m,
    ground arith,
    λ j. rw f (find-update j k (merge_with e).result m f),
  )
]

merged-if :
    (ow : Bool) (k j : Bytes) (d : Chunkdat) (m n : Values)
    → find k n ≡ none
    → merged ow
        (if equal k j
          then elim (find k m) [ none ↦ some d | some e ↦ some (merge ow e d).result ]
          else find j m)
        (find j n)
      ≡ merged ow (find j m) (if equal k j then some d else find j n)
merged-if ow k j d m n f = elim (Bool-cases (equal k j)) [
  | inl e ↦ let p : k ≡ j = (equal_iff k j).0 e in rw e (rw (← p) (rw f (merged_same (find k m))))
  | inr e ↦ rw e
]
  where
    merged_same :
        (o : Option Chunkdat)
        → merged ow (elim o [ none ↦ some d | some e ↦ some (merge ow e d).result ]) none
          ≡ merged ow o (some d)
    merged_same none = refl
    merged_same (some e) = refl

merge_values-value :
    (ow : Bool) (m : Values) (k : Bytes) (d : Chunkdat) (n : Values)
    → merge_values ow m (value k d n)
      ≡ merge_pair k d m (λ e. merge ow e d) (λ m'. merge_values ow m' n)
unfolding merge_values
merge_values-value ow m k d n = refl

find-value :
    (j k : Bytes) (d : Chunkdat) (n : Values)
    → find j (value k d n) ≡ (if equal k j then some d else find j n)
unfolding find
find-value j k d n = refl

merged-none : (ow : Bool) (o : Option Chunkdat) → o ≡ merged ow o none
merged-none ow none = refl
merged-none ow (some a) = refl

-- After a `merge` of maps that did not throw, where the second is in key order, each key holds what
-- `merge` makes of the values of the two maps under it: the one that is there, or the merge of both.
pub find-merge_values :
    (ow : Bool) (j : Bytes) (m n : Values)
    → ValuesIsOrdered n
    → (merge_values ow m n).thrown ≡ none
    → find j (merge_values ow m n).values ≡ merged ow (find j m) (find j n)
find-merge_values ow j m no_values o h = unfold merge_values find in merged-none ow (find j m)
find-merge_values ow j m (value k d n) o h =
    let e = merge_values-value ow m k d n in
    let (m', runs, reads) =
      merge_pair-find k d m (λ c. merge ow c d) (λ m'. merge_values ow m' n) (rw e at h) in
    let later : (merge_values ow m' n).thrown ≡ none = rw runs at (rw e at h) in
    rw (e, runs, find-value)
      (find-merge_values ow j m' n o.2 later
        ∙ rw (reads j) (merged-if ow k j d m n (find-After k n o.0)))

-- `concatenate` on two maps returns exactly when no key of the second, whose keys are in order, is in
-- the first.
pub concatenate-Disjoint_iff :
    (t u : Trace) (m n : Values)
    → ValuesIsOrdered n
    → ((concatenate (chunkdat t (chunk_map m)) (chunkdat u (chunk_map n))).thrown ≡ none)
      ↔ Disjoint m n
unfolding concatenate
concatenate-Disjoint_iff t u m n o =
    (Disjoint-of_add_values t m n, λ s. rw (add_values-Disjoint t m n o s))

-- On two maps that have no key in common, the second in key order, `concatenate` and `merge`, with
-- `overwrite` or without, both return, and leave the same chunk.
pub concatenate-merge :
    (ow : Bool) (t u : Trace) (m n : Values)
    → ValuesIsOrdered n
    → Disjoint m n
    → let c = chunkdat t (chunk_map m) in
      let chk = chunkdat u (chunk_map n) in
      ((concatenate c chk).thrown ≡ none)
      × ((merge ow c chk).thrown ≡ none)
      × ((concatenate c chk).result ≡ (merge ow c chk).result)
unfolding concatenate merge_into
concatenate-merge ow t u m n o s =
    rw (add_values-Disjoint t m n o s, merge_values-Disjoint ow m n o s) (refl, refl, refl)
