-- ===== src/Chunk/Memory/Examples.antt =====
-- A map with a string in it, and a string, in memory, and the theorems at these.
use ztd.Base.{ℕ, Option, none, some, [], ◌∷◌, ◌≡◌, ◌≢◌, refl, arith, true, ◌==◌, if◌then◌else◌}
use ztd.Base.Text.{codes}
use ztd.Chunk.{no_trace, Trace}
use ztd.Chunk.Memory.{Memory, Object, dat, string_object, map_object, copy_dat, delete_dat, set_dat}
use ztd.Chunk.Memory.Aliases.{set_dat-owns}
use ztd.Chunk.Memory.Assign.{
  IsStored, IsCopy, IsAssigned, copy_dat-IsCopy, delete_dat-Holds, set_dat-IsAssigned,
}
use ztd.Chunk.Memory.Trees.{Owned, owned, string_at, map_at, no_pairs, pair, owns}
use ztd.Error.{Yields, fault}

-- {a = "x"} at 0, its map at 1, the string's chunk at 2 and its text at 3, and a string's chunk at 4
-- with its text at 5.
abbrev objects : ℕ → Option Object
objects x =
    if x == 0
    then some (dat no_trace (some 1))
    else if x == 1
    then some (map_object ((codes "a", 2) ∷ []))
    else if x == 2
    then some (dat no_trace (some 3))
    else if x == 3
    then some (string_object (codes "x"))
    else if x == 4
    then some (dat no_trace (some 5))
    else if x == 5
    then some (string_object (codes "y"))
    else none

abbrev memory : Memory
memory = record { next = 6; at = objects }

abbrev some_map : Owned
some_map =
    owned 0 no_trace
      (map_at 1 (pair (codes "a") (owned 2 no_trace (string_at 3 (codes "x"))) no_pairs))

abbrev some_text : Owned
some_text = owned 4 no_trace (string_at 5 (codes "y"))

some_map-IsStored : IsStored memory some_map
some_map-IsStored = record {
  holds = (refl, (refl, ((refl, refl), tt)));
  below = λ x h. ground arith;
  separate = (refl, (refl, ((λ x h. refl), (refl, tt), tt)));
  ordered = (tt, tt, tt);
}

some_text-IsStored : IsStored memory some_text
some_text-IsStored = record {
  holds = (refl, refl);
  below = λ x h. ground arith;
  separate = (refl, tt);
  ordered = tt;
}

copy_dat-IsCopy_example : Yields (λ (s', a). IsCopy memory some_map s' a) (copy_dat 2 memory 0)
copy_dat-IsCopy_example = copy_dat-IsCopy memory some_map 2 (omega arith) some_map-IsStored

delete_dat-Holds_example :
    Yields
      (λ s'. (x : ℕ) → s'.at x ≡ (if owns x some_map then none else memory.at x))
      (delete_dat 2 memory 0)
delete_dat-Holds_example =
    delete_dat-Holds memory some_map 2 (omega arith) some_map-IsStored.holds
      some_map-IsStored.separate

set_dat-IsAssigned_example : Yields (IsAssigned memory some_text some_map) (set_dat 2 memory 4 0)
set_dat-IsAssigned_example =
    set_dat-IsAssigned memory some_text some_map 2 (omega arith) (omega arith) some_text-IsStored
      some_map-IsStored λ x h. ground arith

set_dat-owns_example :
    Yields
      (λ s'.
        ((t : Trace) × (s'.at 0 ≡ some (dat t none)))
        × ((x : ℕ) → owns x some_map ≡ true → x ≢ 0 → s'.at x ≡ none))
      (set_dat 2 memory 0 0)
    × ((b : ℕ) → owns b some_map ≡ true → b ≢ 0 → set_dat 2 memory 0 b ≡ fault)
set_dat-owns_example = set_dat-owns memory some_map 2 (omega arith) some_map-IsStored
