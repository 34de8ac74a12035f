-- ===== src/Parse/Set/Terminates.antt =====
-- The loops of `chunkdat::set` of src/filedat.cpp, and their fuel.
use ztd.Base.{
  ℕ, zero, suc, ◌+◌, ◌*◌, ◌≤◌, ◌<◌, [], ◌∷◌, ◌++◌, ◌≡◌, ◌≢◌, ◌⊎◌, arith, length, length-append,
  Option-cases, inl, inr, ◌==◌, not,
}
use ztd.Base.Int.{ℤ, pos, ◌+ℤ◌}
use ztd.Base.Text.{Bytes, head_byte}
use ztd.Chunk.{Chunkdat, Values, Items, no_values, no_items}
use ztd.Chunk.Containers.{insert}
use ztd.Error.{
  Result, ok, out_of_fuel, Ensures, holds, throws, faults, Ensures-if, Ensures-bind,
  Ensures-rethrow, Ensures-ne-out_of_fuel,
}
use ztd.Parse.KeyValue.{Keyval, getkeyval, after_key, get_value, is_empty}
use ztd.Parse.Scan.{skip}
use ztd.Parse.Set.{
  Source, part_of, pop_back, content, insert_new, store, map_round, list_round, dispatch, set_fuel,
  map_loop, list_loop, set, moved, moved_unnamed,
}
use ztd.Parse.Strval.Lengths.{getstrval-StrvalWithin}
use ztd.Parse.Strval.{Strval}

length_bytes : (xs ys : Bytes) → length (xs ++ ys) ≡ length xs + length ys
length_bytes = length-append

-- The value has no more bytes than `n`, and what is left of the text has fewer, or none.
abbrev KeyvalWithin : ℕ → Keyval → Type 0
KeyvalWithin n kv = (length kv.value ≤ n) × ((length kv.rest < n) ⊎ (length kv.rest ≡ 0))

get_value-KeyvalWithin :
    (n : ℕ) (k : Strval) → length k.rest ≤ n → Ensures (KeyvalWithin n) (get_value k)
unfolding get_value
get_value-KeyvalWithin n k l =
    Ensures-bind (getstrval-StrvalWithin k.rest b';' b'\n')
      λ v h. holds (omega arith, omega (arith, h.1 (omega arith)))

after_key-KeyvalWithin :
    (in_ : Bytes) (n : ℕ) (k : Strval) (key : Bytes)
    → length key + length k.rest ≤ n
    → Ensures (KeyvalWithin n) (after_key in_ k key)
unfolding after_key
after_key-KeyvalWithin in_ n k [] l =
    Ensures-if (not (is_empty (skip k.rest).0)) (λ _. throws)
      λ _. get_value-KeyvalWithin n k (omega arith)
after_key-KeyvalWithin in_ n k (c ∷ key) l =
    Ensures-if (c == b';') (λ _. holds (omega arith, inl (omega (arith, length_bytes))))
      λ _.
        Ensures-if (not k.delim_found) (λ _. throws) λ _. get_value-KeyvalWithin n k (omega arith)

pub getkeyval-KeyvalWithin : (str : Bytes) → Ensures (KeyvalWithin (length str)) (getkeyval str)
unfolding getkeyval
getkeyval-KeyvalWithin str =
    Ensures-bind (getstrval-StrvalWithin str b'=' 0)
      λ k h. after_key-KeyvalWithin str (length str) k k.val h.0

-- A call ends if its constructor ends at the values that it gets.
abbrev Ends : {A : Type 0} → Result A → Type 0
Ends r = Ensures (λ _. Unit {0}) r

insert_new-Ends :
    (src : Source) (key : Bytes) (start : ℤ) (m : Values) (chk : Chunkdat)
    → Ends (insert_new src key start m chk)
unfolding insert_new
insert_new-Ends src key start m chk = elim (Option-cases (insert key chk m)) [
  | inl e ↦ rw (e, insert_new) throws
  | inr (m', e) ↦ rw (e, insert_new) (holds tt)
]

store-Ends :
    (make : Source → Result Chunkdat) (src : Source) (i : ℕ) (m : Values) (kv : Keyval) (n : ℕ)
    → length kv.value ≤ n
    → ((part : Source) → length part.text ≤ n → Ends (make part))
    → Ends (store make src i m kv)
unfolding store
store-Ends make src i m kv n l ends =
    Ensures-if (is_empty kv.key) (λ _. holds tt)
      λ _. Ensures-rethrow (moved_unnamed src (pos i +ℤ kv.value_start)) (
        Ensures-bind (ends (part_of src kv.value (pos i +ℤ kv.value_start)) l)
          λ chk _. insert_new-Ends src kv.key _ m chk)

map_round-Ends :
    (make : Source → Result Chunkdat) (src : Source) (i : ℕ) (str : Bytes) (m : Values)
    → ((part : Source) → length part.text ≤ length str → Ends (make part))
    → Ensures
        (λ (m', kv). (length kv.rest < length str) ⊎ (length kv.rest ≡ 0))
        (map_round make src i str m)
unfolding map_round
map_round-Ends make src i str m ends =
    Ensures-if (head_byte (skip str).0 == b'=') (λ _. throws)
      λ _.
        Ensures-bind (Ensures-rethrow (moved src (pos i)) (getkeyval-KeyvalWithin str))
          λ kv w. Ensures-bind (store-Ends make src i m kv (length str) w.0 ends) λ m' _. holds w.1

list_round-Ends :
    (make : Source → Result Chunkdat) (src : Source) (i : ℕ) (str : Bytes) (l : Items)
    → ((part : Source) → length part.text ≤ length str → Ends (make part))
    → Ensures
        (λ (l', t). (length t.rest < length str) ⊎ (length t.rest ≡ 0))
        (list_round make src i str l)
unfolding list_round
list_round-Ends make src i str l ends =
    Ensures-bind (Ensures-rethrow (moved src (pos i)) (getstrval-StrvalWithin str b',' b';')) λ t w.
      Ensures-bind
        (Ensures-rethrow (moved src (pos (i + t.start)))
          (ends (part_of src t.val (pos (i + t.start))) (omega arith)))
        λ chk _. holds (w.1 (omega arith))

pop_back_ends : (str : Bytes) → Ensures (λ r. length r + 1 ≡ length str) (pop_back str)
unfolding pop_back
pop_back_ends [] = faults
pop_back_ends (c ∷ []) = holds (omega arith)
pop_back_ends (c ∷ d ∷ s) = Ensures-bind (pop_back_ends (d ∷ s)) λ r h. holds (omega arith)

content_ends :
    (src : Source) (t : Strval) (str : Bytes)
    → Ensures (λ r. length r + 1 ≡ length str) (content src t str)
unfolding content
content_ends src t str = Ensures-if (is_empty (skip t.rest).0) (λ _. pop_back_ends str) λ _. throws

dispatch-Ends :
    (read_map : ℕ → Bytes → Result Values) (read_list : ℕ → Bytes → Result Items) (src : Source)
    (t : Strval) (val : Bytes)
    → ((i : ℕ) (str : Bytes) → length str + 2 ≤ length val → Ends (read_map i str))
    → ((i : ℕ) (str : Bytes) → length str + 2 ≤ length val → Ends (read_list i str))
    → Ends (dispatch read_map read_list src t val)
unfolding dispatch
dispatch-Ends read_map read_list src t [] maps lists = holds tt
dispatch-Ends read_map read_list src t (c ∷ str) maps lists =
    Ensures-if (c == b'{')
      (λ _. Ensures-bind (content_ends src t str) λ inner h.
        Ensures-bind
          (Ensures-if (is_empty (skip inner).0) (λ _. holds tt)
            λ _. maps (t.start + 1) inner (omega arith))
          λ m _. holds tt)
      λ _.
        Ensures-if (c == b'[')
          (λ _. Ensures-bind (content_ends src t str) λ inner h.
            Ensures-bind
              (Ensures-if (is_empty (skip inner).0) (λ _. holds tt)
                λ _. lists (t.start + 1) inner (omega arith))
              λ l _. holds tt)
          λ _. holds tt

-- The rest of a loop, which goes on where there is text left.
next_round :
    {A : Type 0} (n f : ℕ) (str : Bytes) (a : A) (again : Bytes → Result A)
    → (length str < n) ⊎ (length str ≡ 0)
    → ((s : Bytes) → length s < n → Ends (again s))
    → Ends (elim str [ [] ↦ ok a | c ∷ r ↦ again (c ∷ r) ])
next_round n f [] a again l ends = holds tt
next_round n f (c ∷ r) a again l ends = ends (c ∷ r) (omega arith)

mutual
  unfolding set_fuel

  set_fuel-Ends : (f : ℕ) (src : Source) → 2 * length src.text + 1 ≤ f → Ends (set_fuel f src)
  set_fuel-Ends zero src h = absurd (omega arith)
  set_fuel-Ends (suc f) src h = Ensures-bind (getstrval-StrvalWithin src.text 0 0) λ t w.
      dispatch-Ends _ _ src t t.val (λ i str l. map_loop-Ends f src i str no_values (omega arith))
        λ i str l. list_loop-Ends f src i str no_items (omega arith)

  map_loop-Ends :
      (f : ℕ) (src : Source) (i : ℕ) (str : Bytes) (m : Values)
      → 2 * length str + 2 ≤ f
      → Ends (map_loop f src i str m)
  map_loop-Ends zero src i str m h = absurd (omega arith)
  map_loop-Ends (suc f) src i str m h =
      Ensures-bind
        (map_round-Ends (λ part. set_fuel f part) src i str m
          λ part l. set_fuel-Ends f part (omega arith))
        λ (m', kv) w.
          next_round (length str) f kv.rest m' (λ s. map_loop f src (i + kv.rest_start) s m') w
            λ s l. map_loop-Ends f src (i + kv.rest_start) s m' (omega arith)

  list_loop-Ends :
      (f : ℕ) (src : Source) (i : ℕ) (str : Bytes) (l : Items)
      → 2 * length str + 2 ≤ f
      → Ends (list_loop f src i str l)
  list_loop-Ends zero src i str l h = absurd (omega arith)
  list_loop-Ends (suc f) src i str l h =
      Ensures-bind
        (list_round-Ends (λ part. set_fuel f part) src i str l
          λ part q. set_fuel-Ends f part (omega arith))
        λ (l', t) w.
          next_round (length str) f t.rest l' (λ s. list_loop f src (i + t.rest_start) s l') w
            λ s q. list_loop-Ends f src (i + t.rest_start) s l' (omega arith)

-- Reading a chunk ends on every text: two units of fuel for each byte and one more are never used up.
pub set-ne-out_of_fuel : (src : Source) → set src ≢ out_of_fuel
unfolding set
set-ne-out_of_fuel src = Ensures-ne-out_of_fuel (set_fuel-Ends _ src (omega arith))
