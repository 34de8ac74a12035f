-- ===== src/Chunk/Memory/Frees.antt =====
-- `clear` and the destructors of `chunkdat`, `chunk_map` and `chunk_list`, src/filedat.cpp: what they
-- delete.
use ztd.Base.{
  ℕ, zero, suc, ◌≤◌, Bool, true, false, ◌||◌, Option, none, some, List, ◌≡◌, refl, arith, ◌==◌, ◌∙◌,
  sym, if◌then◌else◌,
}
use ztd.Base.Text.{Bytes}
use ztd.Chunk.{Trace}
use ztd.Chunk.Memory.{
  Memory, Object, Pointers, dat, string_object, map_object, list_object, released, free, read_dat,
  delete_each, delete_values, delete_abstract, clear_with, delete_dat,
}
use ztd.Chunk.Memory.Trees.{
  Owned, OwnedContent, OwnedValues, OwnedItems, owned, no_content, string_at, map_at, list_at,
  no_pairs, pair, no_elements, element, root, content_pointer, pointers, item_pointers, owns,
  owns_content, owns_values, owns_items, Holds, HoldsContent, HoldsValues, HoldsItems, Apart,
  IsSeparate, ContentIsSeparate, ValuesIsSeparate, ItemsIsSeparate, weight, content_weight,
  values_weight, items_weight, Holds-values, Holds-items,
}
use ztd.Error.{Result, ok, ◌>>=◌, Yields, returns, Yields-bind, Yields-subst, Yields-mono}

-- The memory without the addresses of `p`, and no new one.
pub record Freed (p : ℕ → Bool) (s s' : Memory) : Type 0 where
  pub next : s'.next ≡ s.next
  pub at : (x : ℕ) → s'.at x ≡ (if p x then none else s.at x)

free_at : (s : Memory) (a : ℕ) (o : Object) → s.at a ≡ some o → free s a ≡ ok (released s a)
unfolding free
free_at s a o e = rw (e, free) refl

free-Freed :
    (p : ℕ → Bool) (a : ℕ) (s s' : Memory) (o : Object)
    → p a ≡ false
    → s.at a ≡ some o
    → Freed p s s'
    → Yields (Freed (λ x. a == x || p x) s) (free s' a)
free-Freed p a s s' o n e f =
    Yields-subst (free_at s' a o (f.at a ∙ ground arith))
      (returns (record { next = f.next; at = λ x. ground (arith, f.at x) }))

Freed-none : (s : Memory) → Freed (λ x. false) s s
Freed-none s = record { next = refl; at = λ x. refl }

Freed-both :
    (p q : ℕ → Bool) (s s' s'' : Memory)
    → Freed p s s'
    → Freed q s' s''
    → Freed (λ x. p x || q x) s s''
Freed-both p q s s' s'' f g = record {
  next = g.next ∙ f.next;
  at = λ x. ground (arith, f.at x, g.at x);
}

-- What stands apart from the freed addresses stays.
Freed-Apart :
    (p q : ℕ → Bool) (s s' : Memory)
    → Apart p q
    → Freed p s s'
    → (x : ℕ) → q x ≡ true
    → s'.at x ≡ s.at x
Freed-Apart p q s s' n f x e = ground (arith, f.at x, n x)

-- The memory behind `clear` of the chunk at `a`.
pub record Cleared (a : ℕ) (t : Trace) (c : OwnedContent) (s s' : Memory) : Type 0 where
  pub next : s'.next ≡ s.next
  pub at :
      (x : ℕ)
      → s'.at x ≡ (if a == x then some (dat t none) else if owns_content x c then none else s.at x)

pub read_dat_at :
    (s : Memory) (a : ℕ) (t : Trace) (p : Option ℕ)
    → s.at a ≡ some (dat t p)
    → read_dat s a ≡ ok (t, p)
unfolding read_dat
read_dat_at s a t p e = rw (e, read_dat) refl

clear_pointer :
    (destroy : Memory → ℕ → Result Memory) (s : Memory) (a : ℕ) (t : Trace) (c : OwnedContent)
    (p : ℕ)
    → s.at a ≡ some (dat t (some p))
    → Yields (Freed (λ x. owns_content x c) s) (delete_abstract destroy s p)
    → Yields (Cleared a t c s) (clear_with destroy s a)
unfolding clear_with
clear_pointer destroy s a t c p e y =
    rw (read_dat_at s a t (some p) e)
      (Yields-bind y λ s' f. returns (record { next = f.next; at = λ x. ground (arith, f.at x) }))

pub clear_dat-Cleared :
    (destroy : Memory → ℕ → Result Memory) (s : Memory) (a : ℕ) (t : Trace) (c : OwnedContent)
    → s.at a ≡ some (dat t (content_pointer c))
    → ((p : ℕ)
        → content_pointer c ≡ some p
        → Yields (Freed (λ x. owns_content x c) s) (delete_abstract destroy s p))
    → Yields (Cleared a t c s) (clear_with destroy s a)
clear_dat-Cleared destroy s a t no_content e y =
    unfold clear_with in
    rw (read_dat_at s a t none e) (returns (record { next = refl; at = λ x. refl }))
clear_dat-Cleared destroy s a t (string_at b v) e y =
    clear_pointer destroy s a t (string_at b v) b e (y b refl)
clear_dat-Cleared destroy s a t (map_at b m) e y =
    clear_pointer destroy s a t (map_at b m) b e (y b refl)
clear_dat-Cleared destroy s a t (list_at b l) e y =
    clear_pointer destroy s a t (list_at b l) b e (y b refl)

-- `delete` of a chunk that was cleared.
free-Cleared :
    (a : ℕ) (t : Trace) (c : OwnedContent) (s s' : Memory)
    → Cleared a t c s s'
    → Yields (Freed (λ x. a == x || owns_content x c) s) (free s' a)
free-Cleared a t c s s' k =
    Yields-subst (free_at s' a (dat t none) (k.at a ∙ ground arith))
      (returns (record { next = k.next; at = λ x. ground (arith, k.at x) }))

module _ (destroy : Memory → ℕ → Result Memory) (s : Memory) (a : ℕ) where
  delete_string :
      (v : Bytes) → s.at a ≡ some (string_object v) → delete_abstract destroy s a ≡ free s a
  unfolding delete_abstract
  delete_string v e = rw (e, delete_abstract) refl

  delete_map :
      (ps : Pointers)
      → s.at a ≡ some (map_object ps)
      → delete_abstract destroy s a ≡ (delete_values destroy s ps >>= λ s'. free s' a)
  unfolding delete_abstract
  delete_map ps e = rw (e, delete_abstract) refl

  delete_list :
      (ps : List ℕ)
      → s.at a ≡ some (list_object ps)
      → delete_abstract destroy s a ≡ (delete_each destroy s ps >>= λ s'. free s' a)
  unfolding delete_abstract
  delete_list ps e = rw (e, delete_abstract) refl

mutual
  unfolding delete_dat delete_values delete_each

  pub delete_dat-Freed :
      (d : Owned) (f : ℕ) (s : Memory)
      → weight d ≤ f
      → Holds s.at d
      → IsSeparate d
      → Yields (Freed (λ x. owns x d) s) (delete_dat f s (root d))
  delete_dat-Freed (owned a t c) zero s l h i = absurd (omega arith)
  delete_dat-Freed (owned a t c) (suc f) s l h i =
      Yields-bind
        (clear_dat-Cleared (λ s' q. delete_dat f s' q) s a t c h.0
          λ p e. content-Freed c f s p e (omega arith) h.1 i.1)
        λ s' k. free-Cleared a t c s s' k

  pub content-Freed :
      (c : OwnedContent) (f : ℕ) (s : Memory) (p : ℕ)
      → content_pointer c ≡ some p
      → content_weight c ≤ f
      → HoldsContent s.at c
      → ContentIsSeparate c
      → Yields (Freed (λ x. owns_content x c) s) (delete_abstract (λ s' q. delete_dat f s' q) s p)
  content-Freed no_content f s p e l h i = absurd (ground arith)
  content-Freed (string_at a v) f s p e l h i =
      let q : a ≡ p = ground arith in
      rw (sym q, delete_string _ s a v h)
        (Yields-subst (free_at s a (string_object v) h)
          (returns (record { next = refl; at = λ x. refl })))
  content-Freed (map_at a m) f s p e l h i =
      let q : a ≡ p = ground arith in
      rw (sym q, delete_map _ s a (pointers m) h.0)
        (Yields-bind (values-Freed m f s (omega arith) h.1 i.1)
          λ s' g. free-Freed (λ x. owns_values x m) a s s' _ i.0 h.0 g)
  content-Freed (list_at a m) f s p e l h i =
      let q : a ≡ p = ground arith in
      rw (sym q, delete_list _ s a (item_pointers m) h.0)
        (Yields-bind (items-Freed m f s (omega arith) h.1 i.1)
          λ s' g. free-Freed (λ x. owns_items x m) a s s' _ i.0 h.0 g)

  pub values-Freed :
      (m : OwnedValues) (f : ℕ) (s : Memory)
      → values_weight m ≤ f
      → HoldsValues s.at m
      → ValuesIsSeparate m
      → Yields
          (Freed (λ x. owns_values x m) s)
          (delete_values (λ s' q. delete_dat f s' q) s (pointers m))
  values-Freed no_pairs f s l h i = returns (Freed-none s)
  values-Freed (pair k d m) f s l h i =
      Yields-bind (delete_dat-Freed d f s (omega arith) h.0 i.1) λ s' g.
        Yields-mono
          (values-Freed m f s' (omega arith)
            (Holds-values s.at s'.at m
              (Freed-Apart (λ x. owns x d) (λ x. owns_values x m) s s' i.0 g) h.1)
            i.2)
          λ s'' g'. Freed-both (λ x. owns x d) (λ x. owns_values x m) s s' s'' g g'

  pub items-Freed :
      (m : OwnedItems) (f : ℕ) (s : Memory)
      → items_weight m ≤ f
      → HoldsItems s.at m
      → ItemsIsSeparate m
      → Yields
          (Freed (λ x. owns_items x m) s)
          (delete_each (λ s' q. delete_dat f s' q) s (item_pointers m))
  items-Freed no_elements f s l h i = returns (Freed-none s)
  items-Freed (element d m) f s l h i =
      Yields-bind (delete_dat-Freed d f s (omega arith) h.0 i.1) λ s' g.
        Yields-mono
          (items-Freed m f s' (omega arith)
            (Holds-items s.at s'.at m (Freed-Apart (λ x. owns x d) (λ x. owns_items x m) s s' i.0 g)
              h.1)
            i.2)
          λ s'' g'. Freed-both (λ x. owns x d) (λ x. owns_items x m) s s' s'' g g'
