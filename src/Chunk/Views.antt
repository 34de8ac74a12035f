-- ===== src/Chunk/Views.antt =====
-- What the members of `chunkdat` that change a chunk promise: `addToMap`, `addToList`, both `erase`,
-- `concatenate`, and `merge` with `overwrite`, as changes to an abstract view in which a map is a
-- function of the keys and a list is the sequence of its elements.
mod Examples
pub mod Steps
pub mod Refines
use ztd.Base.{
  ℕ, suc, ◌++◌, ltb, Bool, true, false, Option, none, some, List, [], ◌∷◌, length, take, drop,
  if◌then◌else◌,
}
use ztd.Base.Text.{Bytes, equal}
use ztd.Chunk.{
  Chunkdat, Values, Items, Edited, chunkdat, null, chunk_string, chunk_map, chunk_list, value,
  no_values, item, no_items,
}
use ztd.Chunk.Containers.{find}
use ztd.Chunk.Edit.{add_to_map, add_to_list, erase, erase_index, concatenate, merge}
use ztd.Chunk.Merge.Lookup.{merged}
use ztd.Chunk.Ordered.{IsOrdered}

pub data View : Type 0 where
  empty : View
  text : Bytes → View
  mapping : (Bytes → Option Chunkdat) → View
  sequence : List Chunkdat → View

abbrev pub elements : Items → List Chunkdat
elements no_items = []
elements (item d l) = d ∷ elements l

abbrev pub lookups : Values → Bytes → Option Chunkdat
lookups m key = find key m

abbrev pub view_of : Chunkdat → View
view_of (chunkdat t null) = empty
view_of (chunkdat t (chunk_string v)) = text v
view_of (chunkdat t (chunk_map m)) = mapping (lookups m)
view_of (chunkdat t (chunk_list l)) = sequence (elements l)

-- A function of the keys, changed at one key.
abbrev pub changed : (Bytes → Option Chunkdat) → Bytes → Option Chunkdat → Bytes → Option Chunkdat
changed f key d = λ j. if equal key j then d else f j

-- A call of a member.
pub data Command : Type 0 where
  adds_key : Bytes → Chunkdat → Command
  adds_element : Chunkdat → Command
  erases_key : Bytes → Command
  erases_index : ℕ → Command
  concatenates : Chunkdat → Command
  overwrites : Chunkdat → Command

abbrev pub CommandIsOrdered : Command → Type 0
CommandIsOrdered (adds_key name val) = IsOrdered val
CommandIsOrdered (adds_element val) = IsOrdered val
CommandIsOrdered (erases_key key) = Unit
CommandIsOrdered (erases_index i) = Unit
CommandIsOrdered (concatenates chk) = IsOrdered chk
CommandIsOrdered (overwrites chk) = IsOrdered chk

abbrev pub perform : Chunkdat → Command → Edited
perform c (adds_key name val) = add_to_map c name val
perform c (adds_element val) = add_to_list c val
perform c (erases_key key) = erase c key
perform c (erases_index i) = erase_index c i
perform c (concatenates chk) = concatenate c chk
perform c (overwrites chk) = merge true c chk

-- The view behind a call, and whether the call throws.
abbrev pub Told : Type 0
Told = View × Bool

-- A key can be added where it is not there.
abbrev pub add_told : (Bytes → Option Chunkdat) → Bytes → Chunkdat → Told
add_told f name val = elim (f name) [
  | none ↦ (mapping (changed f name (some val)), false)
  | some d ↦ (mapping f, true)
]

abbrev pub erase_told : (Bytes → Option Chunkdat) → Bytes → Told
erase_told f key = elim (f key) [
  | none ↦ (mapping f, true)
  | some d ↦ (mapping (changed f key none), false)
]

-- Pairs are added up to the first key that is there.
abbrev pub join_told : (Bytes → Option Chunkdat) → Values → Told
join_told f no_values = (mapping f, false)
join_told f (value k d n) =
    let later = join_told (changed f k (some d)) n in
    elim (f k) [ none ↦ later | some e ↦ (mapping f, true) ]

abbrev pub concatenate_told : View → Chunkdat → Told
concatenate_told empty chk = (view_of chk, false)
concatenate_told (mapping f) (chunkdat u (chunk_map n)) = join_told f n
concatenate_told (sequence xs) (chunkdat u (chunk_list k)) = (sequence (xs ++ elements k), false)
concatenate_told (text v) (chunkdat u (chunk_string w)) = (text (v ++ w), false)
concatenate_told view chk = (view, true)

-- Maps are merged key by key, lists are joined, and anything else is replaced.
abbrev pub overwrite_told : View → Chunkdat → Told
overwrite_told (mapping f) (chunkdat u (chunk_map n)) =
    (mapping λ key. merged true (f key) (find key n), false)
overwrite_told (sequence xs) (chunkdat u (chunk_list k)) = (sequence (xs ++ elements k), false)
overwrite_told view chk = (view_of chk, false)

abbrev pub told : View → Command → Told
told empty (adds_key name val) = (mapping (changed (λ j. none) name (some val)), false)
told (mapping f) (adds_key name val) = add_told f name val
told view (adds_key name val) = (view, true)
told empty (adds_element val) = (sequence (val ∷ []), false)
told (sequence xs) (adds_element val) = (sequence (xs ++ val ∷ []), false)
told view (adds_element val) = (view, true)
told (mapping f) (erases_key key) = erase_told f key
told view (erases_key key) = (view, true)
told (sequence xs) (erases_index i) =
    if ltb i (length xs)
    then (sequence (take i xs ++ drop (suc i) xs), false)
    else (sequence xs, true)
told view (erases_index i) = (view, true)
told view (concatenates chk) = concatenate_told view chk
told view (overwrites chk) = overwrite_told view chk

-- A sequence of calls: what is left, and which of the calls threw.
abbrev pub run : Chunkdat → List Command → Chunkdat × List Bool
run c [] = (c, [])
run c (command ∷ commands) =
    let r = perform c command in
    let (d, throws) = run r.result commands in
    (d, elim r.thrown [ none ↦ false | some e ↦ true ] ∷ throws)

abbrev pub told_run : View → List Command → View × List Bool
told_run view [] = (view, [])
told_run view (command ∷ commands) =
    let (later, throws) = told view command in
    let (last, all) = told_run later commands in (last, throws ∷ all)
