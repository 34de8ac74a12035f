-- ===== src/Chunk/Types.antt =====
-- The accessors of `chunkdat` in src/filedat.cpp against its `type`.
use ztd.Base.{Option, none, some, ℕ, zero, suc, ◌≡◌, ◌≢◌, refl, arith, ◌⊎◌, ◌↔◌, ◌<◌, inl, inr}
use ztd.Base.Int.{ℤ, pos, negsuc, minus_one}
use ztd.Base.Text.{Bytes}
use ztd.Chunk.{
  Chunkdat, Items, map_type, list_type, type_of, chunkdat, null, chunk_string, chunk_map,
  chunk_list, item, no_items,
}
use ztd.Chunk.Access.{
  list_size, getlist, getmap, sub_chunk_ptr, sub_chunk_ptr_at, sub_chunk_ref, sub_chunk_ref_at,
}
use ztd.Chunk.Containers.{at, size, find}
use ztd.Error.{FormatError, Result, ok, thrown}

-- The call returns where `P` holds, and throws elsewhere.
abbrev pub ReturnsIf {ℓ} : {A : Type ℓ} → Type 0 → Result A → Type ℓ
ReturnsIf {A} P r = (P × (a : A) × (r ≡ ok a)) ⊎ (¬ P × (e : FormatError) × (r ≡ thrown e))

-- A number less than a size, which may be -1.
abbrev pub IsBelow : ℕ → ℤ → Type 0
IsBelow a (pos n) = a < n
IsBelow a (negsuc n) = ⊥

-- A reference to what a pointer points to; where the pointer is null, an exception.
abbrev pub Refers : Option Chunkdat → Result Chunkdat → Type 0
Refers (some d) r = r ≡ ok d
Refers none r = (e : FormatError) × (r ≡ thrown e)

Refers-found :
    (p : Option Chunkdat) (e : FormatError) → Refers p (elim p [ some d ↦ ok d | none ↦ thrown e ])
Refers-found (some d) e = refl
Refers-found none e = (e, refl)

sub_chunk_ref-Refers :
    (c : Chunkdat) (key : Bytes) → Refers (sub_chunk_ptr c key) (sub_chunk_ref c key)
unfolding sub_chunk_ptr sub_chunk_ref
sub_chunk_ref-Refers (chunkdat t null) key = (_, refl)
sub_chunk_ref-Refers (chunkdat t (chunk_string v)) key = (_, refl)
sub_chunk_ref-Refers (chunkdat t (chunk_list l)) key = (_, refl)
sub_chunk_ref-Refers (chunkdat t (chunk_map m)) key = Refers-found (find key m) _

sub_chunk_ref_at-Refers :
    (c : Chunkdat) (a : ℕ) → Refers (sub_chunk_ptr_at c a) (sub_chunk_ref_at c a)
unfolding sub_chunk_ptr_at sub_chunk_ref_at
sub_chunk_ref_at-Refers (chunkdat t null) a = (_, refl)
sub_chunk_ref_at-Refers (chunkdat t (chunk_string v)) a = (_, refl)
sub_chunk_ref_at-Refers (chunkdat t (chunk_map m)) a = (_, refl)
sub_chunk_ref_at-Refers (chunkdat t (chunk_list l)) a = Refers-found (at l a) _

at_iff : (l : Items) (a : ℕ) → (at l a ≢ none) ↔ (a < size l)
unfolding at size
at_iff no_items a = (λ h. absurd (h refl), λ h. absurd (omega arith))
at_iff (item d l) zero = (λ h. omega arith, λ h e. cc)
at_iff (item d l) (suc a) =
    (λ h. omega (arith, (at_iff l a).0 h), λ h. (at_iff l a).1 (omega arith))

getlist-ReturnsIf : (c : Chunkdat) → ReturnsIf (type_of c ≡ list_type) (getlist c)
unfolding getlist
getlist-ReturnsIf (chunkdat t null) = inr (λ h. cc, _, refl)
getlist-ReturnsIf (chunkdat t (chunk_string v)) = inr (λ h. cc, _, refl)
getlist-ReturnsIf (chunkdat t (chunk_map m)) = inr (λ h. cc, _, refl)
getlist-ReturnsIf (chunkdat t (chunk_list l)) = inl (refl, l, refl)

getmap-ReturnsIf : (c : Chunkdat) → ReturnsIf (type_of c ≡ map_type) (getmap c)
unfolding getmap
getmap-ReturnsIf (chunkdat t null) = inr (λ h. cc, _, refl)
getmap-ReturnsIf (chunkdat t (chunk_string v)) = inr (λ h. cc, _, refl)
getmap-ReturnsIf (chunkdat t (chunk_list l)) = inr (λ h. cc, _, refl)
getmap-ReturnsIf (chunkdat t (chunk_map m)) = inl (refl, m, refl)

-- The size of a chunk that is no list is -1.
list_size_iff : (c : Chunkdat) → (list_size c ≡ minus_one) ↔ (type_of c ≢ list_type)
unfolding list_size
list_size_iff (chunkdat t null) = (λ e h. cc, λ h. refl)
list_size_iff (chunkdat t (chunk_string v)) = (λ e h. cc, λ h. refl)
list_size_iff (chunkdat t (chunk_map m)) = (λ e h. cc, λ h. refl)
list_size_iff (chunkdat t (chunk_list l)) = (λ e h. cc, λ h. absurd (h refl))

-- What `type` tells of the other accessors, at a key and an index.
pub record Accessors (c : Chunkdat) (key : Bytes) (a : ℕ) : Type 0 where
  pub no_size : (list_size c ≡ minus_one) ↔ (type_of c ≢ list_type)
  pub elements : ReturnsIf (type_of c ≡ list_type) (getlist c)
  pub pairs : ReturnsIf (type_of c ≡ map_type) (getmap c)
  pub at_key : Refers (sub_chunk_ptr c key) (sub_chunk_ref c key)
  pub keyed : sub_chunk_ptr c key ≢ none → type_of c ≡ map_type
  pub at_index : Refers (sub_chunk_ptr_at c a) (sub_chunk_ref_at c a)
  pub in_bounds : (sub_chunk_ptr_at c a ≢ none) ↔ IsBelow a (list_size c)

keyed_only : (c : Chunkdat) (key : Bytes) → sub_chunk_ptr c key ≢ none → type_of c ≡ map_type
unfolding sub_chunk_ptr
keyed_only (chunkdat t null) key h = absurd (h refl)
keyed_only (chunkdat t (chunk_string v)) key h = absurd (h refl)
keyed_only (chunkdat t (chunk_list l)) key h = absurd (h refl)
keyed_only (chunkdat t (chunk_map m)) key h = refl

index_iff : (c : Chunkdat) (a : ℕ) → (sub_chunk_ptr_at c a ≢ none) ↔ IsBelow a (list_size c)
unfolding sub_chunk_ptr_at list_size
index_iff (chunkdat t null) a = (λ h. absurd (h refl), λ h. elim h [ ])
index_iff (chunkdat t (chunk_string v)) a = (λ h. absurd (h refl), λ h. elim h [ ])
index_iff (chunkdat t (chunk_map m)) a = (λ h. absurd (h refl), λ h. elim h [ ])
index_iff (chunkdat t (chunk_list l)) a = at_iff l a

-- For every chunk: listSize is -1 exactly if it is no list; getlist and getmap return if it is a list, or
-- a map, and throw if not; subChunkRef gives what subChunkPtr points to, and throws where that is null;
-- with a key that is only found in a map, with an index exactly below listSize.
pub type_of-Accessors : (c : Chunkdat) (key : Bytes) (a : ℕ) → Accessors c key a
type_of-Accessors c key a = record {
  no_size = list_size_iff c;
  elements = getlist-ReturnsIf c;
  pairs = getmap-ReturnsIf c;
  at_key = sub_chunk_ref-Refers c key;
  keyed = keyed_only c key;
  at_index = sub_chunk_ref_at-Refers c a;
  in_bounds = index_iff c a;
}
