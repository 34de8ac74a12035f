-- ===== src/Chunk/Memory/Fresh.antt =====
-- Memory that grows while `chunkdat::set` of src/filedat.cpp copies, and the containers that it fills.
use Prim.Native.Nat.{Ordering}
use ztd.Base.{ℕ, ◌<◌, ◌≤◌, Bool, true, false, ◌||◌, List, [], ◌∷◌, ◌++◌, ◌≡◌, refl, arith, ◌∙◌, ap}
use ztd.Base.Text.{Bytes, order, equal_iff, order_refl, order_trans}
use ztd.Chunk.{Values, value, no_values}
use ztd.Chunk.Ordered.{After}
use ztd.Chunk.Memory.{Memory, Pointers, has_key, place_pointer, insert_pointer, pushed_back}
use ztd.Chunk.Memory.Trees.{Apart}

pub not_true : (b : Bool) → (b ≡ true → ⊥) → b ≡ false
not_true true n = absurd (n refl)
not_true false n = refl

abbrev pub Below : ℕ → (ℕ → Bool) → Type 0
Below n p = (x : ℕ) → p x ≡ true → x < n

-- New objects at the addresses of `p` and nowhere else, and the others as they were.
pub record Extends (p : ℕ → Bool) (s s' : Memory) : Type 0 where
  pub next : s.next ≤ s'.next
  pub kept : (x : ℕ) → p x ≡ false → s'.at x ≡ s.at x
  pub fresh : (x : ℕ) → p x ≡ true → (s.next ≤ x) × (x < s'.next)

pub Extends-none : (s : Memory) → Extends (λ x. false) s s
Extends-none s = record { next = omega arith; kept = λ x l. refl; fresh = λ x e. ground arith }

pub Extends-both :
    (p q : ℕ → Bool) (s s' s'' : Memory)
    → Extends p s s'
    → Extends q s' s''
    → Extends (λ x. p x || q x) s s''
Extends-both p q s s' s'' f g = record {
  next = omega (arith, f.next, g.next);
  kept = λ x l. g.kept x (ground arith) ∙ f.kept x (ground arith);
  fresh = λ x e. ground (arith, f.fresh x, g.fresh x, f.next, g.next);
}

pub Extends-Apart :
    (p q : ℕ → Bool) (s s' s'' : Memory) → Extends p s s' → Extends q s' s'' → Apart p q
Extends-Apart p q s s' s'' f g x e = ground (arith, f.fresh x, g.fresh x)

-- What was there before is as it was.
pub Extends-kept :
    (p : ℕ → Bool) (s s' : Memory) → Extends p s s' → (x : ℕ) → x < s.next → s'.at x ≡ s.at x
Extends-kept p s s' f x l = f.kept x (not_true (p x) λ h. omega (arith, (f.fresh x h).0))

pub Extends-agree :
    (p q : ℕ → Bool) (s s' : Memory)
    → Extends p s s'
    → Below s.next q
    → (x : ℕ) → q x ≡ true
    → s'.at x ≡ s.at x
Extends-agree p q s s' f b x e = Extends-kept p s s' f x (b x e)

-- Every key comes before `k`.
abbrev pub PointersBefore : Bytes → Pointers → Type 0
PointersBefore k [] = Unit
PointersBefore k ((j, p) ∷ ps) = (order j k ≡ Ordering.lt) × PointersBefore k ps

has_key-PointersBefore : (k : Bytes) (ps : Pointers) → PointersBefore k ps → has_key k ps ≡ false
unfolding has_key
has_key-PointersBefore k [] b = refl
has_key-PointersBefore k ((j, p) ∷ ps) b =
    ground (arith, equal_iff j k, order_refl k, has_key-PointersBefore k ps)

place_pointer-PointersBefore :
    (k : Bytes) (p : ℕ) (ps : Pointers)
    → PointersBefore k ps
    → place_pointer k p ps ≡ ps ++ (k, p) ∷ []
unfolding place_pointer
place_pointer-PointersBefore k p [] b = refl
place_pointer-PointersBefore k p ((j, q) ∷ ps) b =
    ground (arith, order_trans k j k, order_refl k, place_pointer-PointersBefore k p ps)

pub insert_pointer-PointersBefore :
    (k : Bytes) (p : ℕ) (ps : Pointers)
    → PointersBefore k ps
    → insert_pointer k p ps ≡ ps ++ (k, p) ∷ []
unfolding insert_pointer
insert_pointer-PointersBefore k p ps b =
    rw (has_key-PointersBefore k ps b) (place_pointer-PointersBefore k p ps b)

abbrev pub AllBefore : Values → Pointers → Type 0
AllBefore no_values ps = Unit
AllBefore (value k d m) ps = PointersBefore k ps × AllBefore m ps

PointersBefore-append :
    (j k : Bytes) (p : ℕ) (ps : Pointers)
    → PointersBefore j ps
    → order k j ≡ Ordering.lt
    → PointersBefore j (ps ++ (k, p) ∷ [])
PointersBefore-append j k p [] b h = (h, tt)
PointersBefore-append j k p ((i, q) ∷ ps) b h = (b.0, PointersBefore-append j k p ps b.1 h)

pub AllBefore-append :
    (k : Bytes) (p : ℕ) (m : Values) (ps : Pointers)
    → After k m
    → AllBefore m ps
    → AllBefore m (ps ++ (k, p) ∷ [])
AllBefore-append k p no_values ps a b = tt
AllBefore-append k p (value j d m) ps a b =
    (PointersBefore-append j k p ps b.0 a.0, AllBefore-append k p m ps a.1 b.1)

pub AllBefore-nil : (m : Values) → AllBefore m []
AllBefore-nil no_values = tt
AllBefore-nil (value k d m) = (tt, AllBefore-nil m)

pub pushed_back-append : (ps : List ℕ) (p : ℕ) → pushed_back ps p ≡ ps ++ p ∷ []
pushed_back-append [] p = refl
pushed_back-append (q ∷ ps) p = ap (◌∷◌ q) (pushed_back-append ps p)
