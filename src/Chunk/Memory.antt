-- ===== src/Chunk/Memory.antt =====
-- The objects behind a chunk: `chunkdat` and its `m_achunk` in memory, for the copy
-- `set(chunkdat const&)`, `clear` and the destructors of src/filedat.cpp. A read or a delete at an
-- address that holds no object is undefined behaviour.
pub mod Trees
pub mod Frees
pub mod Fresh
pub mod Copied
pub mod Steps
pub mod Copies
pub mod Assign
pub mod Aliases
mod Examples
use ztd.Base.{
  ℕ, zero, suc, Option, none, some, List, [], ◌∷◌, ◌==◌, if◌then◌else◌, Bool, true, false, map,
}
use ztd.Base.Text.{Bytes, equal, order}
use ztd.Chunk.{Trace, no_trace}
use ztd.Error.{Result, ok, thrown, fault, out_of_fuel, ◌>>=◌}
use Prim.Native.Nat.{Ordering}

-- `std::map<std::string, chunkdat*>`, in the order of its keys.
abbrev pub Pointers : Type 0
Pointers = List (Bytes × ℕ)

-- An object: a `chunkdat` with its `m_achunk`, or a `chunk_string`, `chunk_map` or `chunk_list`.
pub data Object : Type 0 where
  dat : Trace → Option ℕ → Object
  string_object : Bytes → Object
  map_object : Pointers → Object
  list_object : List ℕ → Object

pub record Memory : Type 0 where
  pub next : ℕ
  pub at : ℕ → Option Object

abbrev pub write : Memory → ℕ → Object → Memory
write s a o = record s { at = λ b. if a == b then some o else s.at b }

-- `new`.
abbrev pub allocated : Memory → Object → Memory
allocated s o = write (record s { next = suc s.next }) s.next o

abbrev pub released : Memory → ℕ → Memory
released s a = record s { at = λ b. if a == b then none else s.at b }

-- `delete` of the storage at an address.
unfoldable pub free : Memory → ℕ → Result Memory
free s a = elim (s.at a) [ none ↦ fault | some o ↦ ok (released s a) ]

-- The members of a `chunkdat` at an address.
unfoldable pub read_dat : Memory → ℕ → Result (Trace × Option ℕ)
read_dat s a = elim (s.at a) [ some o ↦ elim o [ dat t p ↦ ok (t, p) | _ ↦ fault ] | none ↦ fault ]

-- The loops of the destructors, where `destroy` is `delete` of a `chunkdat`.
unfoldable pub delete_each : (Memory → ℕ → Result Memory) → Memory → List ℕ → Result Memory
delete_each destroy s [] = ok s
delete_each destroy s (p ∷ ps) = destroy s p >>= λ s'. delete_each destroy s' ps

unfoldable pub delete_values : (Memory → ℕ → Result Memory) → Memory → Pointers → Result Memory
delete_values destroy s [] = ok s
delete_values destroy s ((k, p) ∷ ps) = destroy s p >>= λ s'. delete_values destroy s' ps

-- `delete m_achunk`: the destructor of the object that is there, and its storage.
unfoldable pub delete_abstract : (Memory → ℕ → Result Memory) → Memory → ℕ → Result Memory
unfolding free delete_each delete_values
delete_abstract destroy s a = elim (s.at a) [
  | none ↦ fault
  | some o ↦ elim o [
    | dat t p ↦ fault
    | string_object v ↦ free s a
    | map_object ps ↦ delete_values destroy s ps >>= λ s'. free s' a
    | list_object ps ↦ delete_each destroy s ps >>= λ s'. free s' a
  ]
]

-- `clear`.
unfoldable pub clear_with : (Memory → ℕ → Result Memory) → Memory → ℕ → Result Memory
unfolding read_dat delete_abstract
clear_with destroy s self = read_dat s self >>= λ (t, p). elim p [
  | none ↦ ok (write s self (dat t none))
  | some a ↦ delete_abstract destroy s a >>= λ s'. ok (write s' self (dat t none))
]

-- `delete` of a `chunkdat`, on fuel: its destructor calls `clear`.
unfoldable pub delete_dat : ℕ → Memory → ℕ → Result Memory
unfolding clear_with free
delete_dat zero s p = out_of_fuel
delete_dat (suc f) s p = clear_with (λ s' q. delete_dat f s' q) s p >>= λ s'. free s' p

unfoldable pub clear_dat : ℕ → Memory → ℕ → Result Memory
unfolding clear_with delete_dat
clear_dat f s self = clear_with (λ s' q. delete_dat f s' q) s self

-- `values.insert(...)`: the map as it was where the key is there.
unfoldable pub has_key : Bytes → Pointers → Bool
has_key k [] = false
has_key k ((j, p) ∷ ps) = let later = has_key k ps in if equal j k then true else later

unfoldable pub place_pointer : Bytes → ℕ → Pointers → Pointers
place_pointer k p [] = (k, p) ∷ []
place_pointer k p ((j, q) ∷ ps) =
    let later = place_pointer k p ps in
    elim (order k j) [ Ordering.lt ↦ (k, p) ∷ (j, q) ∷ ps | _ ↦ (j, q) ∷ later ]

unfoldable pub insert_pointer : Bytes → ℕ → Pointers → Pointers
unfolding has_key place_pointer
insert_pointer k p ps = if has_key k ps then ps else place_pointer k p ps

-- The loops of `set` over the parts of the argument, where `copied` is `pcopy`. The new map or list
-- comes back with the memory.
unfoldable pub copy_pairs :
    (Memory → ℕ → Result (Memory × ℕ)) → Memory → Pointers → Pointers → Result (Memory × Pointers)
unfolding insert_pointer
copy_pairs copied s [] tch = ok (s, tch)
copy_pairs copied s ((k, q) ∷ ps) tch =
    copied s q >>= λ (s', q'). copy_pairs copied s' ps (insert_pointer k q' tch)

-- `push_back`.
abbrev pub pushed_back : List ℕ → ℕ → List ℕ
pushed_back [] p = p ∷ []
pushed_back (q ∷ ps) p = q ∷ pushed_back ps p

unfoldable pub copy_elements :
    (Memory → ℕ → Result (Memory × ℕ)) → Memory → List ℕ → List ℕ → Result (Memory × List ℕ)
copy_elements copied s [] tch = ok (s, tch)
copy_elements copied s (q ∷ ps) tch =
    copied s q >>= λ (s', q'). copy_elements copied s' ps (pushed_back tch q')

-- The new `m_achunk` of `set`: a `chunk_map` or a `chunk_list` is made before its loop, and is
-- written here with what the loop put in.
unfoldable pub copy_abstract : (Memory → ℕ → Result (Memory × ℕ)) → Memory → ℕ → Result (Memory × ℕ)
unfolding copy_pairs copy_elements
copy_abstract copied s a = elim (s.at a) [
  | none ↦ fault
  | some o ↦ elim o [
    | dat t p ↦ fault
    | string_object v ↦ ok (allocated s (string_object v), s.next)
    | map_object ps ↦ copy_pairs copied (allocated s (map_object [])) ps [] >>= λ (s', tch).
        ok (write s' s.next (map_object tch), s.next)
    | list_object ps ↦ copy_elements copied (allocated s (list_object [])) ps [] >>= λ (s', tch).
        ok (write s' s.next (list_object tch), s.next)
  ]
]

-- What `set(chunkdat const&)` does behind `clear`: only then it reads the argument.
unfoldable pub set_cleared : (Memory → ℕ → Result (Memory × ℕ)) → Memory → ℕ → ℕ → Result Memory
unfolding read_dat copy_abstract
set_cleared copied s self in_ = read_dat s in_ >>= λ (t, p). elim p [
  | none ↦ ok (write s self (dat t none))
  | some a ↦ copy_abstract copied s a >>= λ (s', a'). ok (write s' self (dat t (some a')))
]

-- `new chunkdat(in)`, on fuel. `clear` does nothing where `m_achunk` is null.
unfoldable pub copy_dat : ℕ → Memory → ℕ → Result (Memory × ℕ)
unfolding set_cleared
copy_dat zero s in_ = out_of_fuel
copy_dat (suc f) s in_ =
    set_cleared (λ s' q. copy_dat f s' q) (allocated s (dat no_trace none)) s.next in_ >>= λ s'.
    ok (s', s.next)

-- `set(chunkdat const&)`, which `operator=` calls.
unfoldable pub set_dat : ℕ → Memory → ℕ → ℕ → Result Memory
unfolding clear_dat set_cleared copy_dat
set_dat f s self in_ =
    clear_dat f s self >>= λ s'. set_cleared (λ s'' q. copy_dat f s'' q) s' self in_
