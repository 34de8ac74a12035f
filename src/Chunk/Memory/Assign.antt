-- ===== src/Chunk/Memory/Assign.antt =====
-- `chunkdat(chunkdat const&)`, `~chunkdat` and `operator=` of include/filedat.hpp and src/filedat.cpp in
-- memory, against the copy of a chunk as a value.
use ztd.Base.{ℕ, ◌<◌, ◌≤◌, true, false, none, ◌≡◌, ◌≢◌, refl, arith, ◌∙◌, sym, ap, if◌then◌else◌}
use ztd.Chunk.{Trace, chunkdat}
use ztd.Chunk.Copy.{copy, copy-IsOrdered}
use ztd.Chunk.Memory.Copies.{copy_dat-CopiedDat, content-CopiedContent}
use ztd.Chunk.Memory.Frees.{Cleared, clear_dat-Cleared, delete_dat-Freed, content-Freed}
use ztd.Chunk.Memory.Fresh.{Below, not_true}
use ztd.Chunk.Memory.Copied.{CopiedDat, SetTo}
use ztd.Chunk.Memory.Steps.{set_cleared-SetTo}
use ztd.Chunk.Memory.Trees.{
  Owned, OwnedContent, owned, root, forget, forget_content, owns, owns_content, Holds, Apart,
  IsSeparate, weight, content_weight, Holds-Agree, Holds-content,
}
use ztd.Chunk.Memory.{Memory, clear_dat, delete_dat, copy_dat, set_dat}
use ztd.Chunk.Ordered.{IsOrdered}
use ztd.Error.{Yields, Yields-bind, Yields-mono}

-- A chunk in memory: its objects stand at different addresses, all of them given out before, and the
-- maps in it are in key order.
pub record IsStored (s : Memory) (d : Owned) : Type 0 where
  pub holds : Holds s.at d
  pub below : Below s.next (λ x. owns x d)
  pub separate : IsSeparate d
  pub ordered : IsOrdered (forget d)

-- A copy in memory, by its root: a stored chunk with the value of `copy`, at new addresses, and the
-- memory at all other addresses as it was.
pub record IsCopy (s : Memory) (d : Owned) (s' : Memory) (a : ℕ) : Type 0 where
  pub copied : Owned
  pub at_root : root copied ≡ a
  pub stored : IsStored s' copied
  pub same : forget copied ≡ copy (forget d)
  pub fresh : (x : ℕ) → owns x copied ≡ true → s.next ≤ x
  pub kept : (x : ℕ) → owns x copied ≡ false → s'.at x ≡ s.at x

CopiedDat-IsCopy :
    (s : Memory) (d : Owned) (s' : Memory) (a : ℕ)
    → IsOrdered (forget d)
    → CopiedDat s d (s', a)
    → IsCopy s d s' a
CopiedDat-IsCopy s d s' a o c = record {
  copied = c.copy;
  at_root = c.at_root;
  stored = record {
    holds = c.holds;
    below = λ x h. (c.extends.fresh x h).1;
    separate = c.separate;
    ordered = rw c.same o;
  };
  same = c.same ∙ sym (copy-IsOrdered (forget d) o);
  fresh = λ x h. (c.extends.fresh x h).0;
  kept = c.extends.kept;
}

-- A new chunk from a chunk in memory: the constructor returns, and makes a copy that shares no object
-- with what was there. The fuel is at least the number of chunks in the chunk.
pub copy_dat-IsCopy :
    (s : Memory) (d : Owned) (f : ℕ)
    → weight d ≤ f
    → IsStored s d
    → Yields (λ (s', a). IsCopy s d s' a) (copy_dat f s (root d))
copy_dat-IsCopy s d f l i =
    Yields-mono (copy_dat-CopiedDat d f s l i.holds i.below i.ordered)
      λ (s', a) c. CopiedDat-IsCopy s d s' a i.ordered c

-- `delete` of a chunk in memory returns: every object of the chunk is deleted, none of them twice, and
-- the memory elsewhere is as it was. The fuel is at least the number of chunks in the chunk.
pub delete_dat-Holds :
    (s : Memory) (d : Owned) (f : ℕ)
    → weight d ≤ f
    → Holds s.at d
    → IsSeparate d
    → Yields
        (λ s'. (x : ℕ) → s'.at x ≡ (if owns x d then none else s.at x))
        (delete_dat f s (root d))
delete_dat-Holds s d f l h i = Yields-mono (delete_dat-Freed d f s l h i) λ s' g. g.at

-- The memory behind `clear` of a stored chunk.
pub clear_stored :
    (s : Memory) (a : ℕ) (t : Trace) (c : OwnedContent) (f : ℕ)
    → content_weight c ≤ f
    → Holds s.at (owned a t c)
    → IsSeparate (owned a t c)
    → Yields (Cleared a t c s) (clear_dat f s a)
unfolding clear_dat
clear_stored s a t c f l h i =
    clear_dat-Cleared (λ s' q. delete_dat f s' q) s a t c h.0
      λ p e. content-Freed c f s p e l h.1 i.1

-- The chunk at `a` set to the chunk `d`.
pub record IsAssigned (s : Memory) (e : Owned) (d : Owned) (s' : Memory) : Type 0 where
  pub assigned : Owned
  pub at_root : root assigned ≡ root e
  pub stored : IsStored s' assigned
  pub same : forget assigned ≡ copy (forget d)
  pub argument : IsStored s' d
  pub apart : Apart (λ x. owns x d) (λ x. owns x assigned)
  pub deleted : (x : ℕ) → owns x e ≡ true → x ≢ root e → s'.at x ≡ none
  pub kept : (x : ℕ) → owns x e ≡ false → owns x assigned ≡ false → s'.at x ≡ s.at x

Cleared-Apart :
    (s s' : Memory) (a : ℕ) (t : Trace) (c : OwnedContent) (d : Owned)
    → Apart (λ x. owns x d) (λ x. owns x (owned a t c))
    → Cleared a t c s s'
    → (x : ℕ) → owns x d ≡ true
    → s'.at x ≡ s.at x
Cleared-Apart s s' a t c d n k x h = ground (arith, k.at x, n x h)

module _ (s s1 s2 : Memory) (a : ℕ) (t t' : Trace) (c c' : OwnedContent)
    (i : IsStored s (owned a t c)) (k : Cleared a t c s s1) (q : SetTo a t' c' s1 s2) where
  old : (x : ℕ) → x < s.next → owns_content x q.copy ≡ false
  old x l = not_true (owns_content x q.copy) λ h. omega (arith, (q.fresh x h).0, k.next)

  -- What is neither of the chunk nor of the copy is as it was.
  kept_both :
      (x : ℕ) → owns x (owned a t c) ≡ false → owns x (owned a t' q.copy) ≡ false → s2.at x ≡ s.at x
  kept_both x h h' = q.kept x (ground arith) (λ e. ground arith) ∙ (k.at x ∙ ground arith)

  assigned-IsStored : IsOrdered (chunkdat t' (forget_content c')) → IsStored s2 (owned a t' q.copy)
  assigned-IsStored o =
      let l : a < s.next = i.below a (ground arith) in
      record {
        holds = (q.at_self, q.holds);
        below = λ x h. ground (arith, q.fresh x, q.next, k.next);
        separate = (old a l, q.separate);
        ordered = rw q.same o;
      }

  kept_both-IsAssigned :
      (b : ℕ)
      → IsStored s (owned b t' c')
      → Apart (λ x. owns x (owned b t' c')) (λ x. owns x (owned a t c))
      → IsAssigned s (owned a t c) (owned b t' c') s2
  kept_both-IsAssigned b j n = record {
    assigned = owned a t' q.copy;
    at_root = refl;
    stored = assigned-IsStored j.ordered;
    same = ap (chunkdat t') q.same ∙ sym (copy-IsOrdered (forget (owned b t' c')) j.ordered);
    argument = record {
      holds =
          Holds-Agree s.at s2.at (owned b t' c')
            (λ x h. kept_both x (n x h) (ground (arith, n x h, old x (j.below x h)))) j.holds;
      below = λ x h. omega (arith, j.below x h, k.next, q.next);
      separate = j.separate;
      ordered = j.ordered;
    };
    apart = λ x h. ground (arith, q.fresh x, n x h, j.below x h, k.next);
    deleted = λ x h m. q.kept x (old x (i.below x h)) m ∙ (k.at x ∙ ground arith);
    kept = kept_both;
  }

-- `operator=` on two stored chunks that share no object: it returns, the chunk on the left becomes a
-- copy of the other one, all objects that it had but its own are deleted, and the argument is as it
-- was, as is the memory at all addresses that are neither of the chunk as it was nor of the copy. The
-- fuel is at least the number of chunks in each of them.
pub set_dat-IsAssigned :
    (s : Memory) (e d : Owned) (f : ℕ)
    → weight e ≤ f
    → weight d ≤ f
    → IsStored s e
    → IsStored s d
    → Apart (λ x. owns x d) (λ x. owns x e)
    → Yields (IsAssigned s e d) (set_dat f s (root e) (root d))
unfolding set_dat
set_dat-IsAssigned s (owned a t c) (owned b t' c') f l l' i j n =
    Yields-bind (clear_stored s a t c f (omega arith) i.holds i.separate) λ s1 k.
      let g = Cleared-Apart s s1 a t c (owned b t' c') n k in
      Yields-mono
        (set_cleared-SetTo (λ s' q. copy_dat f s' q) s1 a b t'
          (omega (arith, i.below a (ground arith), k.next)) c' (g b (ground arith) ∙ j.holds.0)
          λ p q.
            content-CopiedContent c' f s1 p q (omega arith)
              (Holds-content s.at s1.at c' (λ x h. g x (ground arith)) j.holds.1)
              (λ x h. omega (arith, j.below x (ground arith), k.next)) j.ordered)
        λ s2 q. kept_both-IsAssigned s s1 s2 a t t' c c' i k q b j n
