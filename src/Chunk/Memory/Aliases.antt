-- ===== src/Chunk/Memory/Aliases.antt =====
-- `operator=` of `chunkdat`, include/filedat.hpp, where its argument is the chunk itself or a part of it.
use ztd.Base.{ℕ, ◌≤◌, true, none, some, ◌≡◌, ◌≢◌, refl, arith, ◌∙◌}
use ztd.Chunk.{Trace}
use ztd.Chunk.Memory.Trees.{Owned, owned, root, owns, weight}
use ztd.Chunk.Memory.{Memory, dat, write, read_dat, set_cleared, set_dat}
use ztd.Error.{Result, ok, fault, Yields, returns, Yields-bind, Yields-value, Yields-subst}
use ztd.Chunk.Memory.Assign.{IsStored, clear_stored}

set_cleared_gone :
    (copied : Memory → ℕ → Result (Memory × ℕ)) (s : Memory) (self b : ℕ)
    → s.at b ≡ none
    → set_cleared copied s self b ≡ fault
unfolding set_cleared read_dat
set_cleared_gone copied s self b e = rw (e, set_cleared, read_dat) refl

set_cleared_none :
    (copied : Memory → ℕ → Result (Memory × ℕ)) (s : Memory) (self b : ℕ) (t : Trace)
    → s.at b ≡ some (dat t none)
    → set_cleared copied s self b ≡ ok (write s self (dat t none))
unfolding set_cleared read_dat
set_cleared_none copied s self b t e = rw (e, set_cleared, read_dat) refl

set_dat_inside :
    (s : Memory) (e : Owned) (b f : ℕ)
    → weight e ≤ f
    → IsStored s e
    → owns b e ≡ true
    → b ≢ root e
    → set_dat f s (root e) b ≡ fault
unfolding set_dat
set_dat_inside s (owned a t c) b f l i o n =
    let (s1, e, k) = Yields-value (clear_stored s a t c f (omega arith) i.holds i.separate) in
    rw e (set_cleared_gone _ s1 a b (k.at b ∙ ground arith))

set_dat_self :
    (s : Memory) (e : Owned) (f : ℕ)
    → weight e ≤ f
    → IsStored s e
    → Yields
        (λ s'.
          ((t : Trace) × (s'.at (root e) ≡ some (dat t none)))
          × ((x : ℕ) → owns x e ≡ true → x ≢ root e → s'.at x ≡ none))
        (set_dat f s (root e) (root e))
unfolding set_dat
set_dat_self s (owned a t c) f l i =
    Yields-bind (clear_stored s a t c f (omega arith) i.holds i.separate) λ s1 k.
      Yields-subst (set_cleared_none _ s1 a a t (k.at a ∙ ground arith))
        (returns ((t, ground arith), λ x h n. ground (arith, k.at x)))

-- `operator=` on a stored chunk, with itself or a chunk inside it. With itself, it returns an empty
-- chunk, and all objects of the chunk but its own are deleted. With a chunk inside it, at any depth, it
-- reads an object that it has just deleted. The fuel is at least the number of chunks in the chunk.
pub set_dat-owns :
    (s : Memory) (e : Owned) (f : ℕ)
    → weight e ≤ f
    → IsStored s e
    → Yields
        (λ s'.
          ((t : Trace) × (s'.at (root e) ≡ some (dat t none)))
          × ((x : ℕ) → owns x e ≡ true → x ≢ root e → s'.at x ≡ none))
        (set_dat f s (root e) (root e))
      × ((b : ℕ) → owns b e ≡ true → b ≢ root e → set_dat f s (root e) b ≡ fault)
set_dat-owns s e f l i = (set_dat_self s e f l i, λ b o n. set_dat_inside s e b f l i o n)
