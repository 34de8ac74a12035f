-- ===== src/Chunk/Copy.antt =====
-- The copy of a chunk: `chunkdat::set(chunkdat const&)` of src/filedat.cpp. Elsewhere a copy is written
-- as the chunk itself.
use Prim.Native.Nat.{Ordering}
use ztd.Base.{Option, none, some, ◌≡◌, refl, ap, sym, ◌∙◌, arith}
use ztd.Base.Text.{Bytes, order, equal_iff, order_refl, order_trans}
use ztd.Chunk.{
  Chunkdat, ChunkAbstract, Values, Items, chunkdat, null, chunk_string, chunk_map, chunk_list,
  value, no_values, item, no_items,
}
use ztd.Chunk.Containers.{find, place, insert, push_back}
use ztd.Chunk.Ordered.{After, IsOrdered, ContentIsOrdered, ValuesIsOrdered, ItemsIsOrdered}

-- The map behind an `insert` whose result is not looked at.
abbrev pub inserted : Values → Option Values → Values
inserted tch none = tch
inserted tch (some t) = t

-- The copy, with the loops over the pairs and the elements that are left; `tch` is the copy so far.
unfoldable mutual
  unfolding insert

  pub copy : Chunkdat → Chunkdat
  copy (chunkdat t c) = chunkdat t (copy_content c)

  pub copy_content : ChunkAbstract → ChunkAbstract
  copy_content null = null
  copy_content (chunk_string v) = chunk_string v
  copy_content (chunk_map m) = chunk_map (copy_values m no_values)
  copy_content (chunk_list l) = chunk_list (copy_items l no_items)

  pub copy_values : Values → Values → Values
  copy_values no_values tch = tch
  copy_values (value k d m) tch = copy_values m (inserted tch (insert k (copy d) tch))

  pub copy_items : Items → Items → Items
  copy_items no_items tch = tch
  copy_items (item d l) tch = copy_items l (push_back tch (copy d))

abbrev pub join : Values → Values → Values
join no_values n = n
join (value k d m) n = value k d (join m n)

abbrev join_items : Items → Items → Items
join_items no_items l = l
join_items (item d k) l = item d (join_items k l)

-- Every key comes before `k`.
abbrev pub Before : Bytes → Values → Type 0
Before k no_values = Unit
Before k (value j d m) = (order j k ≡ Ordering.lt) × Before k m

find-Before : (k : Bytes) (m : Values) → Before k m → find k m ≡ none
unfolding find
find-Before k no_values b = refl
find-Before k (value j e m) b = ground (arith, equal_iff j k, order_refl k, find-Before k m)

place-Before :
    (k : Bytes) (d : Chunkdat) (m : Values)
    → Before k m
    → place k d m ≡ join m (value k d no_values)
unfolding place
place-Before k d no_values b = refl
place-Before k d (value j e m) b =
    ground (arith, order_trans k j k, order_refl k, place-Before k d m)

pub insert-Before :
    (k : Bytes) (d : Chunkdat) (m : Values)
    → Before k m
    → insert k d m ≡ some (join m (value k d no_values))
unfolding insert
insert-Before k d m b = rw (find-Before k m b, insert) (ap some (place-Before k d m b))

Before-join :
    (j k : Bytes) (d : Chunkdat) (m : Values)
    → Before k m
    → order k j ≡ Ordering.lt
    → Before j (join m (value k d no_values))
Before-join j k d no_values b h = (h, tt)
Before-join j k d (value i e m) b h = (order_trans i k j b.0 h, Before-join j k d m b.1 h)

pub join_assoc :
    (m : Values) (k : Bytes) (d : Chunkdat) (n : Values)
    → join (join m (value k d no_values)) n ≡ join m (value k d n)
join_assoc no_values k d n = refl
join_assoc (value i e m) k d n = ap (value i e) (join_assoc m k d n)

push_back-join_items :
    (l : Items) (d : Chunkdat) (k : Items) → join_items (push_back l d) k ≡ join_items l (item d k)
unfolding push_back
push_back-join_items no_items d k = refl
push_back-join_items (item e l) d k = ap (item e) (push_back-join_items l d k)

join_nil : (l : Items) → join_items l no_items ≡ l
join_nil no_items = refl
join_nil (item d l) = ap (item d) (join_nil l)

pub join-no_values : (m : Values) → join m no_values ≡ m
join-no_values no_values = refl
join-no_values (value k d m) = ap (value k d) (join-no_values m)

-- The keys of the second map come after those of the first.
abbrev pub AllBefore : Values → Values → Type 0
AllBefore no_values tch = Unit
AllBefore (value k d m) tch = Before k tch × AllBefore m tch

pub AllBefore-join :
    (k : Bytes) (d : Chunkdat) (tch m : Values)
    → Before k tch
    → After k m
    → AllBefore m (join tch (value k d no_values))
AllBefore-join k d tch no_values b a = tt
AllBefore-join k d tch (value j e m) b a =
    (Before-join j k d tch b a.0, AllBefore-join k d tch m b a.1)

pub AllBefore-no_values : (m : Values) → AllBefore m no_values
AllBefore-no_values no_values = tt
AllBefore-no_values (value k d m) = (tt, AllBefore-no_values m)

mutual
  unfolding copy

  copy_same : (c : Chunkdat) → IsOrdered c → copy c ≡ c
  copy_same (chunkdat t c) o = ap (chunkdat t) (copy_content_same c o)

  copy_content_same : (c : ChunkAbstract) → ContentIsOrdered c → copy_content c ≡ c
  copy_content_same null o = refl
  copy_content_same (chunk_string v) o = refl
  copy_content_same (chunk_map m) o =
      ap chunk_map (copy_values_same m no_values o (AllBefore-no_values m))
  copy_content_same (chunk_list l) o = ap chunk_list (copy_items_same l no_items o)

  copy_values_same :
      (m tch : Values) → ValuesIsOrdered m → AllBefore m tch → copy_values m tch ≡ join tch m
  copy_values_same no_values tch o b = sym (join-no_values tch)
  copy_values_same (value k d m) tch o b =
      rw (copy_same d o.1, insert-Before k d tch b.0)
        (copy_values_same m (join tch (value k d no_values)) o.2 (AllBefore-join k d tch m b.0 o.0)
          ∙ join_assoc tch k d m)

  copy_items_same : (l tch : Items) → ItemsIsOrdered l → copy_items l tch ≡ join_items tch l
  copy_items_same no_items tch o = sym (join_nil tch)
  copy_items_same (item d l) tch o =
      rw (copy_same d o.0) (copy_items_same l (push_back tch d) o.1 ∙ push_back-join_items tch d l)

-- A copy of a chunk whose maps are in strict key order is the chunk.
pub copy-IsOrdered : (c : Chunkdat) → IsOrdered c → copy c ≡ c
copy-IsOrdered = copy_same
