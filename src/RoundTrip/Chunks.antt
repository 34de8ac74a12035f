-- ===== src/RoundTrip/Chunks.antt =====
-- A chunk that `chunkdat::strval` printed, read again by `chunkdat::set`, both of src/filedat.cpp.
use ztd.Base.{
  ℕ, zero, suc, ◌+◌, ◌*◌, ◌≤◌, [], ◌∷◌, ◌≡◌, refl, arith, ◌∙◌, ap, length, length-append, Option,
  if◌then◌else◌,
}
use ztd.Base.Int.{ℤ}
use ztd.Base.Text.{Bytes}
use ztd.Chunk.{
  Chunkdat, Parent, Values, chunkdat, null, chunk_string, chunk_map, chunk_list, value, no_values,
  no_items, item,
}
use ztd.Chunk.Copy.{join, AllBefore, AllBefore-join}
use ztd.Chunk.Ordered.{IsOrdered, ValuesIsOrdered}
use ztd.Chunk.Print.{strval, strval_map, strval_pairs, shown_chunk, repeat_string, default_strval}
use ztd.Error.{ok, Yields, returns}
use ztd.Parse.KeyValue.{is_empty}
use ztd.Parse.Scan.{skip}
use ztd.Parse.Set.{Source, map_loop, set}
use ztd.RoundTrip.Nested.{tab, body, strval_map-body}
use ztd.RoundTrip.Texts.{shown-IsValueText}
use ztd.RoundTrip.Reads.{at, text-reads, empty_list-reads, map-reads}
use ztd.RoundTrip.{IsPrintable, ValuesIsPrintable, bare, bare_values}
use ztd.RoundTrip.Bodies.{
  lines, length-line, lines-value, ReadsRest, ReadsChunk, no_lines-read, lines-read, body-reads,
}

length-tabs : (a : ℕ) → length (repeat_string tab a) ≡ a
unfolding repeat_string
length-tabs zero = refl
length-tabs (suc a) = omega (arith, length-tabs a)

lines-no_values : (a : ℕ) → length (lines a no_values) ≡ a
unfolding strval_pairs
lines-no_values a = length-tabs a

-- The fuel of a map is enough for its chunks and for the rest of its lines.
lines_fuel :
    (f a : ℕ) (k : Bytes) (c : Chunkdat) (m : Values)
    → IsPrintable (suc a) c
    → 2 * length (lines a (value k c m)) + 2 ≤ suc f
    → (2 * length (strval (suc a) tab c) + 1 ≤ f) × (2 * length (lines a m) + 2 ≤ f)
lines_fuel f a k c m pr l =
    let i = shown-IsValueText (suc a) c pr in
    let h =
      ap length (lines-value a k c m)
      ∙ length-line (repeat_string tab (suc a)) k (shown_chunk (suc a) tab c) (lines a m) in
    (omega (arith, h, i.fits), omega (arith, h))

map_fuel :
    (f a : ℕ) (k : Bytes) (c : Chunkdat) (m : Values)
    → 2 * length (strval_map a tab (value k c m)) + 1 ≤ suc f
    → 2 * length (lines a (value k c m)) + 2 ≤ f
map_fuel f a k c m l = omega (
  arith,
  ap length (strval_map-body a (value k c m)),
  length-append (body a (value k c m)) (b'}' ∷ []),
)

no_lines :
    (f : ℕ) (src : Source)
    → Yields
        (λ r. bare_values r ≡ no_values)
        (if is_empty (skip []).0 then ok no_values else map_loop f src 1 [] no_values)
unfolding skip
no_lines f src = returns refl

mutual
  unfolding strval

  chunk-reads :
      (c : Chunkdat) (f a : ℕ)
      → IsPrintable a c
      → IsOrdered c
      → 2 * length (strval a tab c) + 1 ≤ f
      → ReadsChunk f a c
  chunk-reads (chunkdat t null) f a pr od l o p = absurd pr
  chunk-reads (chunkdat t (chunk_list (item c i))) f a pr od l o p = absurd pr
  chunk-reads (chunkdat t (chunk_list no_items)) zero a pr od l o p = absurd (omega arith)
  chunk-reads (chunkdat t (chunk_list no_items)) (suc f) a pr od l o p = empty_list-reads f o p
  chunk-reads (chunkdat t (chunk_string v)) zero a pr od l o p = absurd (omega arith)
  chunk-reads (chunkdat t (chunk_string v)) (suc f) a pr od l o p = text-reads f v o p pr
  chunk-reads (chunkdat t (chunk_map no_values)) zero a pr od l o p = absurd (omega arith)
  chunk-reads (chunkdat t (chunk_map no_values)) (suc f) a pr od l o p =
      map-reads f a no_values o p pr.1 λ src. no_lines f src
  chunk-reads (chunkdat t (chunk_map (value k c m))) zero a pr od l o p = absurd (omega arith)
  chunk-reads (chunkdat t (chunk_map (value k c m))) (suc zero) a pr od l o p =
      absurd (omega (arith, map_fuel zero a k c m l))
  chunk-reads (chunkdat t (chunk_map (value k c m))) (suc (suc f)) a pr od l o p =
      let b = lines_fuel f a k c m pr.1.1 (map_fuel (suc f) a k c m l) in
      map-reads (suc f) a (value k c m) o p pr.1 λ src.
        body-reads f a k c m src pr.1.0 pr.1.1 (chunk-reads c f (suc a) pr.1.1 od.1 b.0) λ d.
          rest-reads m f a (value k d no_values) pr.1.2 od.2
            (AllBefore-join k d no_values m tt od.0) b.1

  rest-reads :
      (m : Values) (f a : ℕ) (acc : Values)
      → ValuesIsPrintable a m
      → ValuesIsOrdered m
      → AllBefore m acc
      → 2 * length (lines a m) + 2 ≤ f
      → ReadsRest f a m acc
  rest-reads no_values f a acc pr od b l = no_lines-read f a acc (omega (arith, lines-no_values a))
  rest-reads (value k c m) zero a acc pr od b l = absurd (omega arith)
  rest-reads (value k c m) (suc f) a acc pr od b l =
      let n = lines_fuel f a k c m pr.1 l in
      lines-read f a k c m acc pr.0 pr.1 b.0 (chunk-reads c f (suc a) pr.1 od.1 n.0) λ d.
        rest-reads m f a (join acc (value k d no_values)) pr.2 od.2
          (AllBefore-join k d acc m b.0 od.0) n.1

-- A chunk printed by `strval` with its default arguments is read back by `set`, which returns, and is
-- the chunk that was printed but for the debugging fields. The chunk is a string, an empty list, or a
-- map of such chunks and maps, nested less than 2 ^ 32 deep, with the keys of each map in ascending
-- order. Keys are not empty, do not begin with a semicolon, and have readable bytes other than quotes,
-- `{`, `[`, `}` and `=`. Strings end in neither a blank nor a backslash, and have no quote, `{` and `[`
-- in their first word.
pub set-default_strval :
    (c : Chunkdat) (offset : ℤ) (parent : Option Parent)
    → IsPrintable 0 c
    → IsOrdered c
    → Yields (λ d. bare d ≡ bare c) (set (at (default_strval c) offset parent))
unfolding set
set-default_strval c offset parent p o =
    chunk-reads c (2 * length (default_strval c) + 1) 0 p o (omega arith) offset parent
