-- ===== src/Chunk/Ordered.antt =====
-- The invariant of every map in a chunk: its keys stand in strictly ascending order, at every depth.
pub mod Edits
use Prim.Native.Nat.{Ordering}
use ztd.Base.{Option, none, some, ◌≡◌, refl, arith, Bool, true, false, ◌∙◌}
use ztd.Base.Text.{Bytes, equal, order, equal_iff, order-eq, order-gt, order_trans}
use ztd.Chunk.{
  Chunkdat, ChunkAbstract, Values, Items, chunkdat, null, chunk_string, chunk_map, chunk_list,
  value, no_values, item, no_items,
}
use ztd.Chunk.Containers.{find, place, remove, update, push_back, erase_at}

-- Every key comes after `k`.
abbrev pub After : Bytes → Values → Type 0
After k no_values = Unit
After k (value j d m) = (order k j ≡ Ordering.lt) × After k m

abbrev mutual
  pub IsOrdered : Chunkdat → Type 0
  IsOrdered (chunkdat t c) = ContentIsOrdered c

  pub ContentIsOrdered : ChunkAbstract → Type 0
  ContentIsOrdered null = Unit
  ContentIsOrdered (chunk_string v) = Unit
  ContentIsOrdered (chunk_map m) = ValuesIsOrdered m
  ContentIsOrdered (chunk_list l) = ItemsIsOrdered l

  pub ValuesIsOrdered : Values → Type 0
  ValuesIsOrdered no_values = Unit
  ValuesIsOrdered (value k d m) = After k m × IsOrdered d × ValuesIsOrdered m

  pub ItemsIsOrdered : Items → Type 0
  ItemsIsOrdered no_items = Unit
  ItemsIsOrdered (item d l) = IsOrdered d × ItemsIsOrdered l

After-trans : (i k : Bytes) (m : Values) → order i k ≡ Ordering.lt → After k m → After i m
After-trans i k no_values h a = tt
After-trans i k (value j d m) h a = (order_trans i k j h a.0, After-trans i k m h a.1)

After-place :
    (i k : Bytes) (c : Chunkdat) (m : Values)
    → After i m
    → order i k ≡ Ordering.lt
    → After i (place k c m)
unfolding place
After-place i k c no_values a h = (h, tt)
After-place i k c (value j d m) a h = ground (arith, After-place i k c m)

After-update : (i k : Bytes) (c : Chunkdat) (m : Values) → After i m → After i (update k c m)
unfolding update
After-update i k c no_values a = tt
After-update i k c (value j d m) a = ground (arith, After-update i k c m)

After-remove : (i k : Bytes) (m : Values) → After i m → After i (remove k m)
unfolding remove
After-remove i k no_values a = tt
After-remove i k (value j d m) a = ground (arith, After-remove i k m)

pub place-ValuesIsOrdered :
    (k : Bytes) (c : Chunkdat) (m : Values)
    → find k m ≡ none
    → IsOrdered c
    → ValuesIsOrdered m
    → ValuesIsOrdered (place k c m)
unfolding find place
place-ValuesIsOrdered k c no_values f o v = (tt, o, tt)
place-ValuesIsOrdered k c (value j d m) f o v = ground (
  arith,
  equal_iff j k,
  order-eq k j,
  order-gt k j,
  After-trans k j m,
  After-place j k c m,
  place-ValuesIsOrdered k c m,
)

pub update-ValuesIsOrdered :
    (k : Bytes) (c : Chunkdat) (m : Values)
    → IsOrdered c
    → ValuesIsOrdered m
    → ValuesIsOrdered (update k c m)
unfolding update
update-ValuesIsOrdered k c no_values o v = tt
update-ValuesIsOrdered k c (value j d m) o v =
    ground (arith, After-update j k c m, update-ValuesIsOrdered k c m)

pub remove-ValuesIsOrdered :
    (k : Bytes) (m : Values) → ValuesIsOrdered m → ValuesIsOrdered (remove k m)
unfolding remove
remove-ValuesIsOrdered k no_values v = tt
remove-ValuesIsOrdered k (value j d m) v =
    ground (arith, After-remove j k m, remove-ValuesIsOrdered k m)

pub find-IsOrdered :
    (k : Bytes) (m : Values) {c : Chunkdat} → find k m ≡ some c → ValuesIsOrdered m → IsOrdered c
unfolding find
find-IsOrdered k no_values f v = cc
find-IsOrdered k (value j d m) {c} f v = ground (arith, find-IsOrdered k m {c = c})

pub push_back-ItemsIsOrdered :
    (l : Items) (c : Chunkdat) → IsOrdered c → ItemsIsOrdered l → ItemsIsOrdered (push_back l c)
unfolding push_back
push_back-ItemsIsOrdered no_items c o v = (o, tt)
push_back-ItemsIsOrdered (item d l) c o v = (v.0, push_back-ItemsIsOrdered l c o v.1)
