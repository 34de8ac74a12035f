-- ===== src/Parse/Set.antt =====
-- `chunkdat::set(std::string const&, int, filedat*)` of src/filedat.cpp. The chunk that is being set
-- is read only where the call returns: the constructors, from which the library makes these calls,
-- drop it where it throws.
pub mod Terminates
use ztd.Base.{
  ℕ, zero, suc, ◌+◌, ◌*◌, Bool, true, false, Option, none, some, [], ◌∷◌, ◌++◌, ◌==◌, if◌then◌else◌,
  length, take,
}
use ztd.Socket.{c_string}
use ztd.Base.Int.{ℤ, pos, ◌+ℤ◌}
use ztd.Base.Text.{Bytes, codes, head_byte}
use ztd.Chunk.{
  Chunkdat, Parent, Trace, Values, Items, chunkdat, chunk_string, chunk_map, chunk_list, no_values,
  no_items,
}
use ztd.Chunk.Containers.{insert, push_back}
use ztd.Chunk.Edit.{present}
use ztd.Error.{FormatError, format_error, Result, ok, thrown, fault, out_of_fuel, ◌>>=◌, rethrow}
use ztd.Parse.KeyValue.{Keyval, getkeyval, is_empty}
use ztd.Parse.Scan.{skip}
use ztd.Parse.Strval.{Strval, getstrval}

-- `in`, `offset` and `parent`.
pub record Source : Type 0 where
  pub text : Bytes
  pub offset : ℤ
  pub parent : Option Parent

abbrev pub at_source : Source → Trace
at_source src = record { parent = src.parent; offset = src.offset }

-- The value at `start` of `src`.
abbrev pub part_of : Source → Bytes → ℤ → Source
part_of src value start = record { text = value; offset = src.offset +ℤ start; parent = src.parent }

-- `str.pop_back()`, which is undefined on an empty string.
unfoldable pub pop_back : Bytes → Result Bytes
pop_back [] = fault
pop_back (c ∷ []) = ok []
pop_back (c ∷ d ∷ s) = pop_back (d ∷ s) >>= λ r. ok (c ∷ r)

-- The content of a nested chunk: nothing readable stands behind it, and its brackets are removed.
unfoldable pub content : Source → Strval → Bytes → Result Bytes
unfolding pop_back
content src t str =
    if is_empty (skip t.rest).0
    then pop_back str
    else thrown
        (format_error (codes "Unexpected char") [] src.text (pos (t.rest_start + (skip t.rest).1)))

abbrev duplicate : Source → Bytes → ℤ → FormatError
duplicate src key keystart = format_error (present key) [] src.text keystart

-- A key and its chunk go into the map.
unfoldable pub insert_new : Source → Bytes → ℤ → Values → Chunkdat → Result Values
insert_new src key keystart m chk = elim (insert key chk m) [
  | some m' ↦ ok m'
  | none ↦ thrown (duplicate src key keystart)
]

abbrev pub no_key_at : Source → ℕ → FormatError
no_key_at src i = format_error (codes "Value has no key") [] src.text (pos i)

-- The two `catch` clauses of each loop.
abbrev pub moved : Source → ℤ → FormatError → FormatError
moved src by e = format_error e.desc e.filename src.text (e.index +ℤ by)

abbrev pub moved_unnamed : Source → ℤ → FormatError → FormatError
moved_unnamed src by e = format_error e.desc [] src.text (e.index +ℤ by)

-- A value with a key: its chunk is made, by the constructor `make`, and inserted.
unfoldable pub store : (Source → Result Chunkdat) → Source → ℕ → Values → Keyval → Result Values
unfolding insert_new
store make src i m kv =
    if is_empty kv.key
    then ok m
    else (let start = pos i +ℤ kv.value_start in
        rethrow (moved_unnamed src start) (
          make (part_of src kv.value start) >>= λ chk.
          insert_new src kv.key (pos i +ℤ kv.key_start) m chk))

-- The body of the loop over a map, from `i` in `in` where `str` stands; the map and the pair come
-- back.
unfoldable pub map_round :
    (Source → Result Chunkdat) → Source → ℕ → Bytes → Values → Result (Values × Keyval)
unfolding store
map_round make src i str m =
    if head_byte (skip str).0 == b'='
    then thrown (no_key_at src (i + (skip str).1))
    else (rethrow (moved src (pos i)) (getkeyval str) >>= λ kv.
        store make src i m kv >>= λ m'. ok (m', kv))

-- The body of the loop over a list.
unfoldable pub list_round :
    (Source → Result Chunkdat) → Source → ℕ → Bytes → Items → Result (Items × Strval)
list_round make src i str l = rethrow (moved src (pos i)) (getstrval str b',' b';') >>= λ t.
    (let start = pos (i + t.start) in
      rethrow (moved src start) (make (part_of src t.val start)) >>= λ chk. ok (push_back l chk, t))

-- The dispatch on the first byte of the isolated value.
unfoldable pub dispatch :
    (ℕ → Bytes → Result Values)
    → (ℕ → Bytes → Result Items)
    → Source
    → Strval
    → Bytes
    → Result Chunkdat
unfolding content
dispatch read_map read_list src t [] = ok (chunkdat (at_source src) (chunk_string []))
dispatch read_map read_list src t (c ∷ str) =
    if c == b'{'
    then (content src t str >>= λ inner.
        (if is_empty (skip inner).0 then ok no_values else read_map (t.start + 1) inner) >>= λ m.
        ok (chunkdat (at_source src) (chunk_map m)))
    else if c == b'['
    then (content src t str >>= λ inner.
        (if is_empty (skip inner).0 then ok no_items else read_list (t.start + 1) inner) >>= λ l.
        ok (chunkdat (at_source src) (chunk_list l)))
    else ok (chunkdat (at_source src) (chunk_string src.text))

-- `set` and its two loops, on fuel.
unfoldable mutual
  pub set_fuel : ℕ → Source → Result Chunkdat
  set_fuel zero src = out_of_fuel
  set_fuel (suc f) src = getstrval src.text 0 0 >>= λ t.
      dispatch (λ i str. map_loop f src i str no_values) (λ i str. list_loop f src i str no_items)
        src t t.val

  pub map_loop : ℕ → Source → ℕ → Bytes → Values → Result Values
  map_loop zero src i str m = out_of_fuel
  map_loop (suc f) src i str m = map_round (λ part. set_fuel f part) src i str m >>= λ (m', kv).
      elim kv.rest [ [] ↦ ok m' | c ∷ r ↦ map_loop f src (i + kv.rest_start) (c ∷ r) m' ]

  pub list_loop : ℕ → Source → ℕ → Bytes → Items → Result Items
  list_loop zero src i str l = out_of_fuel
  list_loop (suc f) src i str l = list_round (λ part. set_fuel f part) src i str l >>= λ (l', t).
      elim t.rest [ [] ↦ ok l' | c ∷ r ↦ list_loop f src (i + t.rest_start) (c ∷ r) l' ]

-- `chunkdat(in, offset, parent)`: two units of fuel for each byte.
unfoldable pub set : Source → Result Chunkdat
unfolding set_fuel
set src = set_fuel (2 * length src.text + 1) src

-- The constructors from a text, from `in_size` bytes of a buffer that holds as many, and from a C string.
abbrev pub from_text : Bytes → ℤ → Option Parent → Result Chunkdat
from_text text offset parent = set (record { text = text; offset = offset; parent = parent })

abbrev pub from_bytes : Bytes → ℕ → ℤ → Option Parent → Result Chunkdat
from_bytes buffer in_size offset parent = from_text (take in_size buffer) offset parent

abbrev pub from_c_string : Bytes → Result Chunkdat
from_c_string buffer = from_bytes buffer (length (c_string buffer)) (pos 0) none
