-- ===== src/Chunk/Memory/Copied.antt =====
-- What a copy by `chunkdat::set(chunkdat const&)` of src/filedat.cpp leaves in memory.
use ztd.Base.{ℕ, ◌<◌, ◌≤◌, true, false, some, List, ◌++◌, ◌≡◌, ◌≢◌}
use ztd.Chunk.{Trace}
use ztd.Chunk.Memory.{Memory, Pointers, dat}
use ztd.Chunk.Memory.Trees.{
  Owned, OwnedContent, OwnedValues, OwnedItems, root, content_pointer, pointers, item_pointers,
  forget, forget_content, forget_values, forget_items, owns, owns_content, owns_values, owns_items,
  Holds, HoldsContent, HoldsValues, HoldsItems, IsSeparate, ContentIsSeparate, ValuesIsSeparate,
  ItemsIsSeparate,
}
use ztd.Chunk.Memory.Fresh.{Extends}

-- A copy at new addresses.
pub record CopiedDat (s : Memory) (d : Owned) (r : Memory × ℕ) : Type 0 where
  pub copy : Owned
  pub at_root : root copy ≡ r.1
  pub holds : Holds r.0.at copy
  pub same : forget copy ≡ forget d
  pub extends : Extends (λ x. owns x copy) s r.0
  pub separate : IsSeparate copy

pub record CopiedContent (s : Memory) (c : OwnedContent) (r : Memory × ℕ) : Type 0 where
  pub copy : OwnedContent
  pub at_pointer : content_pointer copy ≡ some r.1
  pub holds : HoldsContent r.0.at copy
  pub same : forget_content copy ≡ forget_content c
  pub extends : Extends (λ x. owns_content x copy) s r.0
  pub separate : ContentIsSeparate copy

pub record CopiedValues (s : Memory) (m : OwnedValues) (tch : Pointers) (r : Memory × Pointers)
    : Type 0 where
  pub copy : OwnedValues
  pub at_pointers : r.1 ≡ tch ++ pointers copy
  pub holds : HoldsValues r.0.at copy
  pub same : forget_values copy ≡ forget_values m
  pub extends : Extends (λ x. owns_values x copy) s r.0
  pub separate : ValuesIsSeparate copy

pub record CopiedItems (s : Memory) (l : OwnedItems) (tch : List ℕ) (r : Memory × List ℕ)
    : Type 0 where
  pub copy : OwnedItems
  pub at_pointers : r.1 ≡ tch ++ item_pointers copy
  pub holds : HoldsItems r.0.at copy
  pub same : forget_items copy ≡ forget_items l
  pub extends : Extends (λ x. owns_items x copy) s r.0
  pub separate : ItemsIsSeparate copy

-- What `set_cleared` leaves.
pub record SetTo (self : ℕ) (t : Trace) (c : OwnedContent) (s s' : Memory) : Type 0 where
  pub copy : OwnedContent
  pub at_self : s'.at self ≡ some (dat t (content_pointer copy))
  pub holds : HoldsContent s'.at copy
  pub same : forget_content copy ≡ forget_content c
  pub next : s.next ≤ s'.next
  pub kept : (x : ℕ) → owns_content x copy ≡ false → x ≢ self → s'.at x ≡ s.at x
  pub fresh : (x : ℕ) → owns_content x copy ≡ true → (s.next ≤ x) × (x < s'.next)
  pub separate : ContentIsSeparate copy
