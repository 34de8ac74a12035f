-- ===== src/Chunk/Examples.antt =====
-- Chunks to run the members on, and the theorems about them at these chunks.
use ztd.Base.{true, false, none, some, ◌≡◌, ◌↔◌, refl, arith, inl, if◌then◌else◌}
use ztd.Base.Text.{Bytes, codes, equal}
use ztd.Chunk.Access.{sub_chunk_ptr}
use ztd.Chunk.Containers.{find, size, place, update}
use ztd.Chunk.Edit.{add_to_map, concatenate, merge, done, merge_values, merge_into, merge_pair}
use ztd.Chunk.Maps.{add_to_map_adds}
use ztd.Chunk.Merge.Conflicts.{Merges, merge-Merges_iff}
use ztd.Chunk.Merge.Lookup.{
  Disjoint, merged, find-merge_values, concatenate-Disjoint_iff, concatenate-merge,
}
use ztd.Chunk.Merge.Total.{merge-overwrite_total}
use ztd.Chunk.Operators.Undo.{minus-plus}
use ztd.Chunk.Operators.{plus_pair, plus_element, minus_key, minus_index}
use ztd.Chunk.Types.{Accessors, type_of-Accessors}
use ztd.Error.{ok, ◌>>=◌}
use ztd.Chunk.Ordered.{IsOrdered}
use ztd.Chunk.Print.{strval, erase_before_last, repeat_string, escape}
use ztd.Chunk.{
  Chunkdat, Values, Items, chunkdat, chunk_string, chunk_map, chunk_list, value, no_values, item,
  no_items, no_trace, type_of, map_type,
}

abbrev text : Bytes → Chunkdat
text v = chunkdat no_trace (chunk_string v)

-- a = 1, c = 3
abbrev some_values : Values
some_values = value (codes "a") (text (codes "1")) (value (codes "c") (text (codes "3")) no_values)

-- b = 2, c = 4
abbrev more_values : Values
more_values = value (codes "b") (text (codes "2")) (value (codes "c") (text (codes "4")) no_values)

-- b = 2
abbrev other_values : Values
other_values = value (codes "b") (text (codes "2")) no_values

abbrev some_map : Chunkdat
some_map = chunkdat no_trace (chunk_map some_values)

abbrev some_items : Items
some_items = item (text (codes "x")) (item some_map no_items)

abbrev some_list : Chunkdat
some_list = chunkdat no_trace (chunk_list some_items)

-- The layout of a printed map and a printed list.
strval-some_list :
    strval 0 (codes "\t") some_list ≡ codes "[\n\t\"x\",\n\t{\n\t\ta = \"1\"\n\t\tc = \"3\"\n\t}\n]"
unfolding strval erase_before_last repeat_string escape
strval-some_list = refl

-- A key that is there is merged: with `overwrite` the argument's string stays.
merge-some_values :
    merge true some_map (chunkdat no_trace (chunk_map more_values))
    ≡ done (
        chunkdat no_trace (
          chunk_map (
            value (codes "a") (text (codes "1")) (
              value
                (codes "b")
                (text (codes "2"))
                (value (codes "c") (text (codes "4")) no_values)))))
unfolding merge_into merge_pair find place update
merge-some_values = refl

some_map-IsOrdered : IsOrdered some_map
some_map-IsOrdered = ((refl, tt), tt, (tt, tt, tt))

find-merge_values_example :
    find (codes "c") (merge_values true some_values more_values).values
    ≡ merged true (find (codes "c") some_values) (find (codes "c") more_values)
find-merge_values_example =
    find-merge_values true (codes "c") some_values more_values some_map-IsOrdered (
      unfold merge_into in
      merge-overwrite_total some_map (chunkdat no_trace (chunk_map more_values)))

concatenate-Disjoint_iff_example :
    ((concatenate some_map (chunkdat no_trace (chunk_map other_values))).thrown ≡ none)
    ↔ Disjoint some_values other_values
concatenate-Disjoint_iff_example =
    concatenate-Disjoint_iff no_trace no_trace some_values other_values (omega arith)

concatenate-merge_example :
    let chk = chunkdat no_trace (chunk_map other_values) in
    ((concatenate some_map chk).thrown ≡ none)
    × ((merge false some_map chk).thrown ≡ none)
    × ((concatenate some_map chk).result ≡ (merge false some_map chk).result)
concatenate-merge_example =
    concatenate-merge false no_trace no_trace some_values other_values (omega arith)
      (unfold find in (refl, tt))

merge-Merges_iff_example :
    ((merge false some_map (chunkdat no_trace (chunk_map more_values))).thrown ≡ none)
    ↔ Merges some_map (chunkdat no_trace (chunk_map more_values))
merge-Merges_iff_example =
    merge-Merges_iff some_map (chunkdat no_trace (chunk_map more_values)) some_map-IsOrdered

merge-overwrite_total_example : (merge true some_map some_list).thrown ≡ none
merge-overwrite_total_example = merge-overwrite_total some_map some_list

add_to_map_adds_example :
    let r = add_to_map some_map (codes "b") some_list in
    (r.thrown ≡ none)
    × (type_of r.result ≡ map_type)
    × (sub_chunk_ptr r.result (codes "c") ≡ (
        if equal (codes "b") (codes "c")
        then some some_list
        else sub_chunk_ptr some_map (codes "c")))
add_to_map_adds_example =
    add_to_map_adds some_map (codes "b") some_list (codes "c") (inl refl)
      (unfold sub_chunk_ptr find in refl)

minus-plus_example :
    ((plus_pair some_map (codes "b", some_list) >>= λ d. minus_key d (codes "b")) ≡ ok some_map)
    × ((plus_element some_list some_list >>= λ d. minus_index d (size some_items)) ≡ ok some_list)
minus-plus_example =
    minus-plus some_map some_list (codes "b") no_trace some_items some_map-IsOrdered
      (tt, (some_map-IsOrdered, tt)) (tt, (some_map-IsOrdered, tt)) refl
      (unfold sub_chunk_ptr find in refl)

type_of-Accessors_example : Accessors some_list (codes "a") 1
type_of-Accessors_example = type_of-Accessors some_list (codes "a") 1
