-- ===== src/Chunk/Views/Refines.antt =====
-- Sequences of calls of the members of `chunkdat` that change a chunk, against what they promise.
use ztd.Base.{true, List, [], ◌∷◌, ◌≡◌, refl, ap, ◌∙◌}
use ztd.Chunk.{Chunkdat, chunkdat, null, chunk_string, chunk_map, chunk_list}
use ztd.Chunk.Containers.{find, place, push_back}
use ztd.Chunk.Edit.{add_to_map, add_to_list, erase, erase_index}
use ztd.Chunk.Ordered.Edits.{
  add_to_map-IsOrdered, add_to_list-IsOrdered, erase-IsOrdered, erase_index-IsOrdered,
  concatenate-IsOrdered, merge_into-IsOrdered,
}
use ztd.Chunk.Ordered.{IsOrdered}
use ztd.Chunk.Views.Steps.{
  Keeps, add_to_map-Keeps, erase-Keeps, erase_index-Keeps, elements-push_back, concatenate-Keeps,
  merge-Keeps,
}
use ztd.Chunk.Views.{
  Command, CommandIsOrdered, sequence, adds_key, adds_element, erases_key, erases_index,
  concatenates, overwrites, perform, told, view_of, run, told_run,
}

abbrev pub AllOrdered : List Command → Type 0
AllOrdered [] = Unit
AllOrdered (command ∷ commands) = CommandIsOrdered command × AllOrdered commands

perform-Keeps :
    (c : Chunkdat) (command : Command)
    → IsOrdered c
    → CommandIsOrdered command
    → Keeps (perform c command) (told (view_of c) command)
perform-Keeps (chunkdat t null) (adds_key name val) o h =
    unfold add_to_map place find in record { view = refl; throws = refl }
perform-Keeps (chunkdat t (chunk_map m)) (adds_key name val) o h = add_to_map-Keeps t m name val
perform-Keeps (chunkdat t (chunk_string v)) (adds_key name val) o h =
    unfold add_to_map in record { view = refl; throws = refl }
perform-Keeps (chunkdat t (chunk_list l)) (adds_key name val) o h =
    unfold add_to_map in record { view = refl; throws = refl }
perform-Keeps (chunkdat t null) (adds_element val) o h =
    unfold add_to_list push_back in record { view = refl; throws = refl }
perform-Keeps (chunkdat t (chunk_list l)) (adds_element val) o h =
    unfold add_to_list in record { view = ap sequence (elements-push_back l val); throws = refl }
perform-Keeps (chunkdat t (chunk_map m)) (adds_element val) o h =
    unfold add_to_list in record { view = refl; throws = refl }
perform-Keeps (chunkdat t (chunk_string v)) (adds_element val) o h =
    unfold add_to_list in record { view = refl; throws = refl }
perform-Keeps (chunkdat t (chunk_map m)) (erases_key key) o h = erase-Keeps t m key o
perform-Keeps (chunkdat t null) (erases_key key) o h =
    unfold erase in record { view = refl; throws = refl }
perform-Keeps (chunkdat t (chunk_string v)) (erases_key key) o h =
    unfold erase in record { view = refl; throws = refl }
perform-Keeps (chunkdat t (chunk_list l)) (erases_key key) o h =
    unfold erase in record { view = refl; throws = refl }
perform-Keeps (chunkdat t (chunk_list l)) (erases_index i) o h = erase_index-Keeps t l i
perform-Keeps (chunkdat t null) (erases_index i) o h =
    unfold erase_index in record { view = refl; throws = refl }
perform-Keeps (chunkdat t (chunk_string v)) (erases_index i) o h =
    unfold erase_index in record { view = refl; throws = refl }
perform-Keeps (chunkdat t (chunk_map m)) (erases_index i) o h =
    unfold erase_index in record { view = refl; throws = refl }
perform-Keeps c (concatenates chk) o h = concatenate-Keeps c chk
perform-Keeps c (overwrites chk) o h = merge-Keeps c chk h

perform-IsOrdered :
    (c : Chunkdat) (command : Command)
    → IsOrdered c
    → CommandIsOrdered command
    → IsOrdered (perform c command).result
perform-IsOrdered c (adds_key name val) o h = add_to_map-IsOrdered c name val o h
perform-IsOrdered c (adds_element val) o h = add_to_list-IsOrdered c val o h
perform-IsOrdered c (erases_key key) o h = erase-IsOrdered c key o
perform-IsOrdered c (erases_index i) o h = erase_index-IsOrdered c i o
perform-IsOrdered c (concatenates chk) o h = concatenate-IsOrdered c chk o h
perform-IsOrdered c (overwrites chk) o h = merge_into-IsOrdered true c chk o h

-- Any sequence of calls of `addToMap`, `addToList`, both `erase`, `concatenate` and `merge` with
-- `overwrite`, on a chunk whose maps are in key order, with arguments whose maps are, does to the view of
-- the chunk what is promised: the view behind the last call is the promised one, the same calls throw,
-- and the maps of the chunk are still in key order.
pub run-told_run :
    (c : Chunkdat) (commands : List Command)
    → IsOrdered c
    → AllOrdered commands
    → (view_of (run c commands).0 ≡ (told_run (view_of c) commands).0)
      × ((run c commands).1 ≡ (told_run (view_of c) commands).1)
      × IsOrdered (run c commands).0
run-told_run c [] o h = (refl, refl, o)
run-told_run c (command ∷ commands) o h =
    let k = perform-Keeps c command o h.0 in
    let d = (perform c command).result in
    let (v, b, o') = run-told_run d commands (perform-IsOrdered c command o h.0) h.1 in
    (
      v ∙ ap (λ x. (told_run x commands).0) k.view,
      ap (λ x. x ∷ (run d commands).1) k.throws
          ∙ ap (λ x. (told (view_of c) command).1 ∷ x)
              (b ∙ ap (λ x. (told_run x commands).1) k.view),
      o',
    )
