-- ===== src/Chunk/Views/Examples.antt =====
-- Calls at which the theorem on the views of a chunk is applied.
use ztd.Base.{true, false, List, [], ◌∷◌, ◌≡◌, refl}
use ztd.Base.Text.{Bytes, codes}
use ztd.Chunk.{Chunkdat, chunkdat, blank, no_trace, chunk_string, chunk_map, value, no_values}
use ztd.Chunk.Containers.{find}
use ztd.Chunk.Ordered.{IsOrdered}
use ztd.Chunk.Views.Refines.{AllOrdered, run-told_run}
use ztd.Chunk.Views.{
  Command, adds_key, adds_element, erases_key, concatenates, overwrites, run, told_run, view_of,
}

abbrev digit : Bytes → Chunkdat
digit v = chunkdat no_trace (chunk_string v)

abbrev other_map : Chunkdat
other_map = chunkdat no_trace (chunk_map (value (codes "b") (digit (codes "2")) no_values))

-- A key is added twice and erased twice, an element is refused, and a map is joined twice.
abbrev commands : List Command
commands =
    adds_key (codes "a") (digit (codes "1"))
    ∷ adds_key (codes "a") (digit (codes "9"))
    ∷ erases_key (codes "a")
    ∷ erases_key (codes "a")
    ∷ adds_element blank
    ∷ concatenates other_map
    ∷ concatenates other_map
    ∷ overwrites other_map
    ∷ []

run_throws :
    (told_run (view_of blank) commands).1
    ≡ false ∷ true ∷ false ∷ true ∷ true ∷ false ∷ true ∷ false ∷ []
unfolding find
run_throws = refl

commands-AllOrdered : AllOrdered commands
commands-AllOrdered =
    (tt, (tt, (tt, (tt, (tt, ((tt, tt, tt), ((tt, tt, tt), ((tt, tt, tt), tt))))))))

run-told_run_example :
    (view_of (run blank commands).0 ≡ (told_run (view_of blank) commands).0)
    × ((run blank commands).1 ≡ (told_run (view_of blank) commands).1)
    × IsOrdered (run blank commands).0
run-told_run_example = run-told_run blank commands tt commands-AllOrdered
