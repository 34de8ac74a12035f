-- ===== src/RoundTrip/Comments.antt =====
-- `filedat::removeComments` of src/filedat.cpp at the text of a printed map.
use ztd.Base.{ℕ, suc, [], ◌∷◌, ◌++◌, ◌≡◌, refl, ◌∙◌, ap, sym, append-nil}
use ztd.Base.Text.{Bytes, codes}
use ztd.Chunk.{
  Chunkdat, ChunkAbstract, Values, chunkdat, null, chunk_string, chunk_map, chunk_list, value,
  no_values, no_items, item,
}
use ztd.Chunk.Print.{repeat_string, shown, shown_chunk, strval_map, strval_pairs}
use ztd.Error.{ok}
use ztd.Parse.Comments.{checked, strip, remove_comments}
use ztd.RoundTrip.Nested.{tab, body, strval_map-body}
use ztd.RoundTrip.{IsPrintable, ValuesIsPrintable}
use ztd.RoundTrip.Stays.{
  IsBare, Stays, Stays-append, Stays-kept, Stays-newline, Stays-nil, AllKept, Stays-all, Stays-tabs,
  Stays-key, Stays-quoted,
}

-- All keys of a chunk are such.
abbrev mutual
  pub HasBareKeys : Chunkdat → Type 0
  HasBareKeys (chunkdat t c) = ContentHasBareKeys c

  pub ContentHasBareKeys : ChunkAbstract → Type 0
  ContentHasBareKeys null = Unit
  ContentHasBareKeys (chunk_string v) = Unit
  ContentHasBareKeys (chunk_map m) = ValuesHasBareKeys m
  ContentHasBareKeys (chunk_list l) = Unit

  pub ValuesHasBareKeys : Values → Type 0
  ValuesHasBareKeys no_values = Unit
  ValuesHasBareKeys (value k c m) = IsBare k × HasBareKeys c × ValuesHasBareKeys m

Stays-body : (a : ℕ) (m : Values) → Stays (strval_pairs a tab m) → Stays (body a m)
Stays-body a no_values sp = Stays-nil
Stays-body a (value k c m) sp =
    Stays-newline (strval_pairs a tab (value k c m) ++ repeat_string tab a)
      (Stays-append (strval_pairs a tab (value k c m)) (repeat_string tab a) sp (Stays-tabs a))

Stays-map : (a : ℕ) (m : Values) → Stays (strval_pairs a tab m) → Stays (strval_map a tab m)
Stays-map a m sp = rw (strval_map-body a m) (
    Stays-kept b'{' (body a m ++ b'}' ∷ []) refl
      (Stays-append (body a m) (b'}' ∷ []) (Stays-body a m sp) (Stays-kept b'}' [] refl Stays-nil)))

Stays-line :
    (a : ℕ) (k w : Bytes)
    → IsBare k
    → Stays w
    → Stays (repeat_string tab (suc a) ++ (k ++ (codes " = " ++ w)))
Stays-line a k w b sw =
    Stays-append (repeat_string tab (suc a)) (k ++ (codes " = " ++ w)) (Stays-tabs (suc a)) (
      Stays-key k (codes "= " ++ w) b (
        Stays-kept b' ' (codes "= " ++ w) refl
          (Stays-kept b'=' (codes " " ++ w) refl (Stays-kept b' ' w refl sw))))

Stays-empty_list : (r : Bytes) → Stays r → Stays (codes "[]" ++ b'\n' ∷ r)
Stays-empty_list r sr =
    Stays-kept b'[' (b']' ∷ b'\n' ∷ r) refl (Stays-kept b']' (b'\n' ∷ r) refl (Stays-newline r sr))

mutual
  unfolding shown strval_pairs

  Stays-shown :
      (a : ℕ) (c : Chunkdat) (r : Bytes)
      → IsPrintable a c
      → HasBareKeys c
      → Stays r
      → Stays (shown_chunk a tab c ++ b'\n' ∷ r)
  Stays-shown a (chunkdat t null) r p h sr = absurd p
  Stays-shown a (chunkdat t (chunk_string v)) r p h sr = Stays-quoted v r p.2 sr
  Stays-shown a (chunkdat t (chunk_map m)) r p h sr =
      Stays-append (strval_map a tab m) (b'\n' ∷ r) (Stays-map a m (Stays-pairs a m p.1 h))
        (Stays-newline r sr)
  Stays-shown a (chunkdat t (chunk_list no_items)) r p h sr = Stays-empty_list r sr
  Stays-shown a (chunkdat t (chunk_list (item c l))) r p h sr = absurd p

  Stays-pairs :
      (a : ℕ) (m : Values)
      → ValuesIsPrintable a m
      → ValuesHasBareKeys m
      → Stays (strval_pairs a tab m)
  Stays-pairs a no_values p h = Stays-nil
  Stays-pairs a (value k c m) p h =
      Stays-line a k (shown_chunk (suc a) tab c ++ b'\n' ∷ strval_pairs a tab m) h.0
        (Stays-shown (suc a) c (strval_pairs a tab m) p.1 h.1 (Stays-pairs a m p.2 h.2))

strip_kept_all : (w : Bytes) → Stays w → remove_comments w ≡ ok w
unfolding remove_comments strip
strip_kept_all w sw = ap (strip checked []) (sym (append-nil w)) ∙ sw [] []

-- A printed map has no comments to remove.
pub remove_comments-strval_map :
    (a : ℕ) (m : Values)
    → ValuesIsPrintable a m
    → ValuesHasBareKeys m
    → remove_comments (strval_map a tab m) ≡ ok (strval_map a tab m)
remove_comments-strval_map a m p h =
    strip_kept_all (strval_map a tab m) (Stays-map a m (Stays-pairs a m p h))

-- Nor if lines without quotes follow it.
pub remove_comments_behind :
    (a : ℕ) (m : Values) (s : Bytes)
    → ValuesIsPrintable a m
    → ValuesHasBareKeys m
    → AllKept s
    → remove_comments (strval_map a tab m ++ b'\n' ∷ (s ++ b'\n' ∷ []))
      ≡ ok (strval_map a tab m ++ b'\n' ∷ (s ++ b'\n' ∷ []))
remove_comments_behind a m s p h k =
    strip_kept_all (strval_map a tab m ++ b'\n' ∷ (s ++ b'\n' ∷ [])) (
      Stays-append (strval_map a tab m) (b'\n' ∷ (s ++ b'\n' ∷ []))
        (Stays-map a m (Stays-pairs a m p h))
        (Stays-newline (s ++ b'\n' ∷ [])
          (Stays-append s (b'\n' ∷ []) (Stays-all s k) (Stays-newline [] Stays-nil))))
