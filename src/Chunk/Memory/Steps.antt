-- ===== src/Chunk/Memory/Steps.antt =====
-- One step of the copy in `chunkdat::set(chunkdat const&)`, src/filedat.cpp: an object, a pair of a map,
-- an element of a list, and the chunk that is set.
use ztd.Base.{
  ℕ, ◌<◌, Bool, true, false, ◌||◌, none, some, List, [], ◌∷◌, ◌++◌, ◌≡◌, refl, arith, ◌==◌, ◌∙◌,
  sym, ap, append_assoc,
}
use ztd.Base.Text.{Bytes}
use ztd.Chunk.{Trace, chunkdat, value, item, chunk_map, chunk_list, no_trace}
use ztd.Chunk.Memory.{
  Memory, Object, Pointers, dat, string_object, map_object, list_object, write, allocated,
  copy_abstract, set_cleared,
}
use ztd.Chunk.Memory.Frees.{read_dat_at}
use ztd.Chunk.Memory.Trees.{
  Owned, OwnedContent, OwnedValues, OwnedItems, owned, no_content, string_at, map_at, list_at, pair,
  element, content_pointer, pointers, item_pointers, forget, forget_values, forget_items, owns,
  owns_content, owns_values, owns_items, Holds-Agree, Holds-content, Holds-values, Holds-items,
}
use ztd.Error.{Result, Yields, returns, Yields-bind}
use ztd.Chunk.Memory.Fresh.{Extends, Extends-both, Extends-Apart, Extends-kept, not_true}
use ztd.Chunk.Memory.Copied.{CopiedDat, CopiedContent, CopiedValues, CopiedItems, SetTo}

-- An object that was allocated before its parts, and written behind them.
module _ (s s' : Memory) (o o' : Object) (q : ℕ → Bool) (e : Extends q (allocated s o) s') where
  write-Extends : Extends (λ x. s.next == x || q x) s (write s' s.next o')
  write-Extends = record {
    next = omega (arith, e.next);
    kept = λ x l. ground (arith, e.kept x);
    fresh = λ x h. ground (arith, e.fresh x, e.next);
  }

  write-agree : (x : ℕ) → q x ≡ true → (write s' s.next o').at x ≡ s'.at x
  write-agree x h = ground (arith, e.fresh x h)

  apart_next : q s.next ≡ false
  apart_next = not_true (q s.next) λ h. omega (arith, (e.fresh s.next h).0)

pub map-CopiedContent :
    (s s' : Memory) (a : ℕ) (m : OwnedValues) (tch : Pointers)
    → CopiedValues (allocated s (map_object [])) m [] (s', tch)
    → CopiedContent s (map_at a m) (write s' s.next (map_object tch), s.next)
map-CopiedContent s s' a m tch c =
    let q = λ (x : ℕ). owns_values x c.copy in
    record {
      copy = map_at s.next c.copy;
      at_pointer = refl;
      holds = (
        ground (arith, c.at_pointers),
        Holds-values s'.at (write s' s.next (map_object tch)).at c.copy
            (write-agree s s' (map_object []) (map_object tch) q c.extends) c.holds,
      );
      same = ap chunk_map c.same;
      extends = write-Extends s s' (map_object []) (map_object tch) q c.extends;
      separate = (apart_next s s' (map_object []) (map_object tch) q c.extends, c.separate);
    }

pub list-CopiedContent :
    (s s' : Memory) (a : ℕ) (l : OwnedItems) (tch : List ℕ)
    → CopiedItems (allocated s (list_object [])) l [] (s', tch)
    → CopiedContent s (list_at a l) (write s' s.next (list_object tch), s.next)
list-CopiedContent s s' a l tch c =
    let q = λ (x : ℕ). owns_items x c.copy in
    record {
      copy = list_at s.next c.copy;
      at_pointer = refl;
      holds = (
        ground (arith, c.at_pointers),
        Holds-items s'.at (write s' s.next (list_object tch)).at c.copy
            (write-agree s s' (list_object []) (list_object tch) q c.extends) c.holds,
      );
      same = ap chunk_list c.same;
      extends = write-Extends s s' (list_object []) (list_object tch) q c.extends;
      separate = (apart_next s s' (list_object []) (list_object tch) q c.extends, c.separate);
    }

pub string-CopiedContent :
    (s : Memory) (a : ℕ) (v : Bytes)
    → CopiedContent s (string_at a v) (allocated s (string_object v), s.next)
string-CopiedContent s a v = record {
  copy = string_at s.next v;
  at_pointer = refl;
  holds = ground arith;
  same = refl;
  extends = record { next = omega arith; kept = λ x l. ground arith; fresh = λ x h. ground arith };
  separate = tt;
}

pub pair-CopiedValues :
    (s s' s'' : Memory) (k : Bytes) (d : Owned) (m : OwnedValues) (p : ℕ) (tch tch' : Pointers)
    → CopiedDat s d (s', p)
    → CopiedValues s' m (tch ++ (k, p) ∷ []) (s'', tch')
    → CopiedValues s (pair k d m) tch (s'', tch')
pair-CopiedValues s s' s'' k d m p tch tch' c r = record {
  copy = pair k c.copy r.copy;
  at_pointers =
      r.at_pointers
      ∙ append_assoc tch ((k, p) ∷ []) (pointers r.copy)
      ∙ ap (λ a. tch ++ (k, a) ∷ pointers r.copy) (sym c.at_root);
  holds = (
    Holds-Agree s'.at s''.at c.copy
        (λ x h. Extends-kept (λ y. owns_values y r.copy) s' s'' r.extends x (c.extends.fresh x h).1)
        c.holds,
    r.holds,
  );
  same = ap (λ z. value k z (forget_values r.copy)) c.same ∙ ap (value k (forget d)) r.same;
  extends =
      Extends-both (λ x. owns x c.copy) (λ x. owns_values x r.copy) s s' s'' c.extends r.extends;
  separate = (
    Extends-Apart (λ x. owns x c.copy) (λ x. owns_values x r.copy) s s' s'' c.extends r.extends,
    c.separate,
    r.separate,
  );
}

pub element-CopiedItems :
    (s s' s'' : Memory) (d : Owned) (l : OwnedItems) (p : ℕ) (tch tch' : List ℕ)
    → CopiedDat s d (s', p)
    → CopiedItems s' l (tch ++ p ∷ []) (s'', tch')
    → CopiedItems s (element d l) tch (s'', tch')
element-CopiedItems s s' s'' d l p tch tch' c r = record {
  copy = element c.copy r.copy;
  at_pointers =
      r.at_pointers
      ∙ append_assoc tch (p ∷ []) (item_pointers r.copy)
      ∙ ap (λ a. tch ++ a ∷ item_pointers r.copy) (sym c.at_root);
  holds = (
    Holds-Agree s'.at s''.at c.copy
        (λ x h. Extends-kept (λ y. owns_items y r.copy) s' s'' r.extends x (c.extends.fresh x h).1)
        c.holds,
    r.holds,
  );
  same = ap (λ z. item z (forget_items r.copy)) c.same ∙ ap (item (forget d)) r.same;
  extends =
      Extends-both (λ x. owns x c.copy) (λ x. owns_items x r.copy) s s' s'' c.extends r.extends;
  separate = (
    Extends-Apart (λ x. owns x c.copy) (λ x. owns_items x r.copy) s s' s'' c.extends r.extends,
    c.separate,
    r.separate,
  );
}

module _ (copied : Memory → ℕ → Result (Memory × ℕ)) (s : Memory) (self b : ℕ) (t : Trace)
    (l : self < s.next) where
  set_cleared_pointer :
      (c : OwnedContent) (p : ℕ)
      → s.at b ≡ some (dat t (some p))
      → Yields (CopiedContent s c) (copy_abstract copied s p)
      → Yields (SetTo self t c s) (set_cleared copied s self b)
  unfolding set_cleared
  set_cleared_pointer c p e y = rw (read_dat_at s b t (some p) e) (
      Yields-bind y λ (s', a) k. returns (record {
        copy = k.copy;
        at_self = ground (arith, k.at_pointer);
        holds =
            Holds-content s'.at (write s' self (dat t (some a))).at k.copy
              (λ x h. ground (arith, k.extends.fresh x h)) k.holds;
        same = k.same;
        next = k.extends.next;
        kept = λ x q n. ground (arith, k.extends.kept x q);
        fresh = k.extends.fresh;
        separate = k.separate;
      }))

  pub set_cleared-SetTo :
      (c : OwnedContent)
      → s.at b ≡ some (dat t (content_pointer c))
      → ((p : ℕ)
          → content_pointer c ≡ some p
          → Yields (CopiedContent s c) (copy_abstract copied s p))
      → Yields (SetTo self t c s) (set_cleared copied s self b)
  set_cleared-SetTo no_content e y =
      unfold set_cleared in
      rw (read_dat_at s b t none e) (
        returns (record {
          copy = no_content;
          at_self = ground arith;
          holds = tt;
          same = refl;
          next = omega arith;
          kept = λ x q n. ground arith;
          fresh = λ x h. ground arith;
          separate = tt;
        }))
  set_cleared-SetTo (string_at a v) e y = set_cleared_pointer (string_at a v) a e (y a refl)
  set_cleared-SetTo (map_at a m) e y = set_cleared_pointer (map_at a m) a e (y a refl)
  set_cleared-SetTo (list_at a i) e y = set_cleared_pointer (list_at a i) a e (y a refl)

pub owned-CopiedDat :
    (s s' : Memory) (a : ℕ) (t : Trace) (c : OwnedContent)
    → SetTo s.next t c (allocated s (dat no_trace none)) s'
    → CopiedDat s (owned a t c) (s', s.next)
owned-CopiedDat s s' a t c k = record {
  copy = owned s.next t k.copy;
  at_root = refl;
  holds = (k.at_self, k.holds);
  same = ap (chunkdat t) k.same;
  extends = record {
    next = omega (arith, k.next);
    kept = λ x l. k.kept x (ground arith) (λ e. ground arith) ∙ ground arith;
    fresh = λ x h. ground (arith, k.fresh x, k.next);
  };
  separate =
      (not_true (owns_content s.next k.copy) λ h. omega (arith, (k.fresh s.next h).0), k.separate);
}
