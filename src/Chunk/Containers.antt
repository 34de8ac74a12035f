-- ===== src/Chunk/Containers.antt =====
-- The operations of `std::map` and `std::vector` that src/filedat.cpp calls on the two containers.
use Prim.Native.Nat.{Ordering}
pub mod Laws
use ztd.Base.{Option, none, some, ℕ, zero, suc, if◌then◌else◌}
use ztd.Base.Text.{Bytes, equal, order}
use ztd.Chunk.{Chunkdat, Values, Items, value, no_values, item, no_items}

-- `values.find(key)`.
unfoldable pub find : Bytes → Values → Option Chunkdat
find k no_values = none
find k (value j d m) = if equal j k then some d else find k m

-- Where a new key goes.
unfoldable pub place : Bytes → Chunkdat → Values → Values
place k c no_values = value k c no_values
place k c (value j d m) =
    let later = place k c m in
    elim (order k j) [ Ordering.lt ↦ value k c (value j d m) | _ ↦ value j d later ]

-- `values.insert(std::make_pair(key, chk))`: `none` where `.second` is false.
unfoldable pub insert : Bytes → Chunkdat → Values → Option Values
insert k c m = elim (find k m) [ none ↦ some (place k c m) | some _ ↦ none ]

-- `values.erase(it)` at the pair that `find` gives.
unfoldable pub remove : Bytes → Values → Values
remove k no_values = no_values
remove k (value j d m) = if equal j k then m else value j d (remove k m)

-- A write through the pointer that `find` gives.
unfoldable pub update : Bytes → Chunkdat → Values → Values
update k c no_values = no_values
update k c (value j d m) = if equal j k then value j c m else value j d (update k c m)

unfoldable pub push_back : Items → Chunkdat → Items
push_back no_items c = item c no_items
push_back (item d l) c = item d (push_back l c)

unfoldable pub size : Items → ℕ
size no_items = 0
size (item d l) = suc (size l)

unfoldable pub at : Items → ℕ → Option Chunkdat
at no_items i = none
at (item d l) zero = some d
at (item d l) (suc i) = at l i

-- `list.erase(list.begin() + index)`.
unfoldable pub erase_at : Items → ℕ → Items
erase_at no_items i = no_items
erase_at (item d l) zero = l
erase_at (item d l) (suc i) = item d (erase_at l i)
