-- ===== src/Chunk/Memory/Copies.antt =====
-- The copy of a chunk in memory: `chunkdat(chunkdat const&)` with the loops of `set`, src/filedat.cpp.
use ztd.Base.{
  ℕ, zero, suc, ◌≤◌, Bool, true, ◌||◌, none, some, List, [], ◌∷◌, ◌++◌, ◌≡◌, refl, arith, ◌==◌, ◌∙◌,
  sym, append-nil,
}
use ztd.Base.Text.{Bytes}
use ztd.Chunk.{no_trace}
use ztd.Chunk.Ordered.{IsOrdered, ContentIsOrdered, ValuesIsOrdered, ItemsIsOrdered}
use ztd.Chunk.Memory.{
  Memory, Object, Pointers, dat, string_object, map_object, list_object, write, allocated,
  copy_pairs, copy_elements, copy_abstract, copy_dat,
}
use ztd.Chunk.Memory.Trees.{
  Owned, OwnedContent, OwnedValues, OwnedItems, owned, no_content, string_at, map_at, list_at,
  no_pairs, pair, no_elements, element, root, content_pointer, pointers, item_pointers, forget,
  forget_content, forget_values, forget_items, owns, owns_content, owns_values, owns_items, Holds,
  HoldsContent, HoldsValues, HoldsItems, weight, content_weight, values_weight, items_weight,
  Holds-content, Holds-values, Holds-items,
}
use ztd.Error.{Result, ok, ◌>>=◌, Yields, returns, Yields-bind, Yields-mono}
use ztd.Chunk.Memory.Fresh.{
  Below, Extends-none, Extends-agree, AllBefore, insert_pointer-PointersBefore, AllBefore-append,
  AllBefore-nil, pushed_back-append,
}
use ztd.Chunk.Memory.Copied.{CopiedDat, CopiedContent, CopiedValues, CopiedItems}
use ztd.Chunk.Memory.Steps.{
  set_cleared-SetTo, map-CopiedContent, list-CopiedContent, string-CopiedContent, pair-CopiedValues,
  element-CopiedItems, owned-CopiedDat,
}

module _ (p q : ℕ → Bool) (n : ℕ) where
  pub Below-left : Below n (λ x. p x || q x) → Below n p
  Below-left b x e = b x (ground arith)

  pub Below-right : Below n (λ x. p x || q x) → Below n q
  Below-right b x e = b x (ground arith)

-- What was there before stays where an object is allocated.
allocated-agree :
    (s : Memory) (o : Object) (q : ℕ → Bool)
    → Below s.next q
    → (x : ℕ) → q x ≡ true
    → (allocated s o).at x ≡ s.at x
allocated-agree s o q b x e = ground (arith, b x e)

Below-suc : (n n' : ℕ) (q : ℕ → Bool) → n ≤ n' → Below n q → Below n' q
Below-suc n n' q l b x e = omega (arith, b x e)

copy_string :
    (copied : Memory → ℕ → Result (Memory × ℕ)) (s : Memory) (a : ℕ) (v : Bytes)
    → s.at a ≡ some (string_object v)
    → copy_abstract copied s a ≡ ok (allocated s (string_object v), s.next)
unfolding copy_abstract
copy_string copied s a v e = rw (e, copy_abstract) refl

copy_map :
    (copied : Memory → ℕ → Result (Memory × ℕ)) (s : Memory) (a : ℕ) (ps : Pointers)
    → s.at a ≡ some (map_object ps)
    → copy_abstract copied s a ≡ (
        copy_pairs copied (allocated s (map_object [])) ps [] >>= λ (s', tch).
        ok (write s' s.next (map_object tch), s.next))
unfolding copy_abstract
copy_map copied s a ps e = rw (e, copy_abstract) refl

copy_list :
    (copied : Memory → ℕ → Result (Memory × ℕ)) (s : Memory) (a : ℕ) (ps : List ℕ)
    → s.at a ≡ some (list_object ps)
    → copy_abstract copied s a ≡ (
        copy_elements copied (allocated s (list_object [])) ps [] >>= λ (s', tch).
        ok (write s' s.next (list_object tch), s.next))
unfolding copy_abstract
copy_list copied s a ps e = rw (e, copy_abstract) refl

mutual
  unfolding copy_dat copy_pairs copy_elements

  pub copy_dat-CopiedDat :
      (d : Owned) (f : ℕ) (s : Memory)
      → weight d ≤ f
      → Holds s.at d
      → Below s.next (λ x. owns x d)
      → IsOrdered (forget d)
      → Yields (CopiedDat s d) (copy_dat f s (root d))
  copy_dat-CopiedDat (owned a t c) zero s l h b o = absurd (omega arith)
  copy_dat-CopiedDat (owned a t c) (suc f) s l h b o =
      let s1 = allocated s (dat no_trace none) in
      let below = Below-right (λ x. a == x) (λ x. owns_content x c) s.next b in
      Yields-bind
        (set_cleared-SetTo (λ s' q. copy_dat f s' q) s1 s.next a t (omega arith) c
          (allocated-agree s (dat no_trace none) (λ x. a == x)
              (Below-left (λ x. a == x) (λ x. owns_content x c) s.next b) a (ground arith)
            ∙ h.0)
          λ p e.
            content-CopiedContent c f s1 p e (omega arith)
              (Holds-content s.at s1.at c
                (allocated-agree s (dat no_trace none) (λ x. owns_content x c) below) h.1)
              (Below-suc s.next s1.next (λ x. owns_content x c) (omega arith) below) o)
        λ s' k. returns (owned-CopiedDat s s' a t c k)

  pub content-CopiedContent :
      (c : OwnedContent) (f : ℕ) (s : Memory) (p : ℕ)
      → content_pointer c ≡ some p
      → content_weight c ≤ f
      → HoldsContent s.at c
      → Below s.next (λ x. owns_content x c)
      → ContentIsOrdered (forget_content c)
      → Yields (CopiedContent s c) (copy_abstract (λ s' q. copy_dat f s' q) s p)
  content-CopiedContent no_content f s p e l h b o = absurd (ground arith)
  content-CopiedContent (string_at a v) f s p e l h b o =
      let q : a ≡ p = ground arith in
      rw (sym q, copy_string _ s a v h) (returns (string-CopiedContent s a v))
  content-CopiedContent (map_at a m) f s p e l h b o =
      let q : a ≡ p = ground arith in
      let s1 = allocated s (map_object []) in
      let below = Below-right (λ x. a == x) (λ x. owns_values x m) s.next b in
      rw (sym q, copy_map _ s a (pointers m) h.0)
        (Yields-bind
          (values-CopiedValues m f s1 [] (omega arith)
            (Holds-values s.at s1.at m
              (allocated-agree s (map_object []) (λ x. owns_values x m) below) h.1)
            (Below-suc s.next s1.next (λ x. owns_values x m) (omega arith) below) o
            (AllBefore-nil (forget_values m)))
          λ (s', tch) k. returns (map-CopiedContent s s' a m tch k))
  content-CopiedContent (list_at a m) f s p e l h b o =
      let q : a ≡ p = ground arith in
      let s1 = allocated s (list_object []) in
      let below = Below-right (λ x. a == x) (λ x. owns_items x m) s.next b in
      rw (sym q, copy_list _ s a (item_pointers m) h.0)
        (Yields-bind
          (items-CopiedItems m f s1 [] (omega arith)
            (Holds-items s.at s1.at m
              (allocated-agree s (list_object []) (λ x. owns_items x m) below) h.1)
            (Below-suc s.next s1.next (λ x. owns_items x m) (omega arith) below) o)
          λ (s', tch) k. returns (list-CopiedContent s s' a m tch k))

  pub values-CopiedValues :
      (m : OwnedValues) (f : ℕ) (s : Memory) (tch : Pointers)
      → values_weight m ≤ f
      → HoldsValues s.at m
      → Below s.next (λ x. owns_values x m)
      → ValuesIsOrdered (forget_values m)
      → AllBefore (forget_values m) tch
      → Yields (CopiedValues s m tch) (copy_pairs (λ s' q. copy_dat f s' q) s (pointers m) tch)
  values-CopiedValues no_pairs f s tch l h b o a = returns (record {
    copy = no_pairs;
    at_pointers = sym (append-nil tch);
    holds = tt;
    same = refl;
    extends = Extends-none s;
    separate = tt;
  })
  values-CopiedValues (pair k d m) f s tch l h b o a =
      let below = Below-right (λ x. owns x d) (λ x. owns_values x m) s.next b in
      Yields-bind
        (copy_dat-CopiedDat d f s (omega arith) h.0
          (Below-left (λ x. owns x d) (λ x. owns_values x m) s.next b) o.1)
        λ (s', p) c. rw (insert_pointer-PointersBefore k p tch a.0) (
          Yields-mono
            (values-CopiedValues m f s' (tch ++ (k, p) ∷ []) (omega arith)
              (Holds-values s.at s'.at m
                (Extends-agree (λ x. owns x c.copy) (λ x. owns_values x m) s s' c.extends below)
                h.1)
              (Below-suc s.next s'.next (λ x. owns_values x m) c.extends.next below) o.2
              (AllBefore-append k p (forget_values m) tch o.0 a.1))
            λ (s'', tch') r. pair-CopiedValues s s' s'' k d m p tch tch' c r)

  pub items-CopiedItems :
      (m : OwnedItems) (f : ℕ) (s : Memory) (tch : List ℕ)
      → items_weight m ≤ f
      → HoldsItems s.at m
      → Below s.next (λ x. owns_items x m)
      → ItemsIsOrdered (forget_items m)
      → Yields
          (CopiedItems s m tch)
          (copy_elements (λ s' q. copy_dat f s' q) s (item_pointers m) tch)
  items-CopiedItems no_elements f s tch l h b o = returns (record {
    copy = no_elements;
    at_pointers = sym (append-nil tch);
    holds = tt;
    same = refl;
    extends = Extends-none s;
    separate = tt;
  })
  items-CopiedItems (element d m) f s tch l h b o =
      let below = Below-right (λ x. owns x d) (λ x. owns_items x m) s.next b in
      Yields-bind
        (copy_dat-CopiedDat d f s (omega arith) h.0
          (Below-left (λ x. owns x d) (λ x. owns_items x m) s.next b) o.0)
        λ (s', p) c. rw (pushed_back-append tch p) (
          Yields-mono
            (items-CopiedItems m f s' (tch ++ p ∷ []) (omega arith)
              (Holds-items s.at s'.at m
                (Extends-agree (λ x. owns x c.copy) (λ x. owns_items x m) s s' c.extends below) h.1)
              (Below-suc s.next s'.next (λ x. owns_items x m) c.extends.next below) o.1)
            λ (s'', tch') r. element-CopiedItems s s' s'' d m p tch tch' c r)
