-- ===== src/Chunk/Containers/Laws.antt =====
-- The laws of the container operations, as the standard library documents them.
use ztd.Base.{none, some, ℕ, zero, suc, ◌+◌, ◌<◌, ◌≡◌, refl, if◌then◌else◌, arith, ap}
use ztd.Base.Text.{Bytes, equal, equal_iff, equal_refl}
use ztd.Chunk.{Chunkdat, Values, Items, value, no_values, item, no_items}
use ztd.Chunk.Containers.{find, place, remove, update, push_back, size, at, erase_at}

-- A fresh key is found where it was placed, and no other key is touched.
pub find-place :
    (j k : Bytes) (c : Chunkdat) (m : Values)
    → find k m ≡ none
    → find j (place k c m) ≡ (if equal k j then some c else find j m)
unfolding find place
find-place j k c no_values h = refl
find-place j k c (value i d m) h =
    ground (arith, equal_iff i k, equal_iff i j, equal_iff k j, find-place j k c m)

pub find-update :
    (j k : Bytes) (c : Chunkdat) (m : Values) {e : Chunkdat}
    → find k m ≡ some e
    → find j (update k c m) ≡ (if equal k j then some c else find j m)
unfolding find update
find-update j k c no_values h = cc
find-update j k c (value i d m) {e} h =
    ground (arith, equal_iff i k, equal_iff i j, equal_iff k j, find-update j k c m {e = e})

pub remove-place :
    (k : Bytes) (c : Chunkdat) (m : Values) → find k m ≡ none → remove k (place k c m) ≡ m
unfolding find place remove
remove-place k c no_values h = ground (arith, equal_refl k)
remove-place k c (value i d m) h = ground (arith, equal_refl k, remove-place k c m)

pub size-push_back : (l : Items) (c : Chunkdat) → size (push_back l c) ≡ size l + 1
unfolding size push_back
size-push_back no_items c = omega arith
size-push_back (item d l) c = omega (arith, size-push_back l c)

pub at-push_back : (l : Items) (c : Chunkdat) → at (push_back l c) (size l) ≡ some c
unfolding at size push_back
at-push_back no_items c = refl
at-push_back (item d l) c = at-push_back l c

pub at-push_back_lt :
    (l : Items) (c : Chunkdat) (i : ℕ) → i < size l → at (push_back l c) i ≡ at l i
unfolding at size push_back
at-push_back_lt no_items c i h = elim h [ ]
at-push_back_lt (item d l) c zero h = refl
at-push_back_lt (item d l) c (suc i) h = at-push_back_lt l c i (omega arith)

pub size-erase_at : (l : Items) (i : ℕ) → i < size l → size (erase_at l i) + 1 ≡ size l
unfolding size erase_at
size-erase_at no_items i h = elim h [ ]
size-erase_at (item d l) zero h = omega arith
size-erase_at (item d l) (suc i) h = omega (arith, size-erase_at l i (omega arith))

pub erase_at-push_back : (l : Items) (c : Chunkdat) → erase_at (push_back l c) (size l) ≡ l
unfolding size erase_at push_back
erase_at-push_back no_items c = refl
erase_at-push_back (item d l) c = ap (item d) (erase_at-push_back l c)
