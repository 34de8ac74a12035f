-- ===== src/Base/Text.antt =====
-- Byte strings as lists of numbers, with the operations of `std::string` that the sources call.
use Prim.Native.Char.{code}
use Prim.Native.Nat.{ℕ, suc, compare, Ordering}
use Prim.Native.String.{String}
use mathlib.Core.Path.{◌≡◌, refl}
use mathlib.Core.Logic.{◌↔◌}
use mathlib.Core.Bool.{Bool, true, false, ◌&&◌}
use mathlib.Core.List.{List, [], ◌∷◌}
use mathlib.Core.Option.{Option, none, some}
use native.Mathlib.Omega.{arith}
use ztd.Base.Tests.{◌==◌, if◌then◌else◌}

abbrev pub Bytes : Type 0
Bytes = List ℕ

-- The code points of a literal; every literal here is ASCII.
abbrev pub codes : String → Bytes
codes String.[] = []
codes (String.◌∷◌ c s) = code c ∷ codes s

-- `a == b` on strings.
abbrev pub equal : Bytes → Bytes → Bool
equal [] [] = true
equal (x ∷ xs) (y ∷ ys) = x == y && equal xs ys
equal _ _ = false

-- `a < b` on strings: lexicographic, as `std::less` compares keys.
abbrev pub order : Bytes → Bytes → Ordering
order [] [] = Ordering.eq
order [] (y ∷ ys) = Ordering.lt
order (x ∷ xs) [] = Ordering.gt
order (x ∷ xs) (y ∷ ys) = elim (compare x y) [
  | Ordering.lt ↦ Ordering.lt
  | Ordering.eq ↦ order xs ys
  | Ordering.gt ↦ Ordering.gt
]

-- `str[i]` at the suffix of `str` from `i`: the terminator past the last byte.
abbrev pub head_byte : Bytes → ℕ
head_byte [] = 0
head_byte (c ∷ s) = c

-- `str.find(c)`; `none` is `npos`.
abbrev pub find_byte : ℕ → Bytes → Option ℕ
find_byte c [] = none
find_byte c (d ∷ s) =
    if d == c then some 0 else elim (find_byte c s) [ none ↦ none | some i ↦ some (suc i) ]

pub equal_iff : (a b : Bytes) → (equal a b ≡ true) ↔ (a ≡ b)
equal_iff (x ∷ a) (y ∷ b) = ground (arith, equal_iff a b)
equal_iff _ _ = ground arith

pub equal_refl : (a : Bytes) → equal a a ≡ true
equal_refl a = (equal_iff a a).1 refl

pub order_refl : (a : Bytes) → order a a ≡ Ordering.eq
order_refl [] = refl
order_refl (x ∷ a) = ground (arith, order_refl a)

pub order-eq : (a b : Bytes) → order a b ≡ Ordering.eq → a ≡ b
order-eq [] [] h = refl
order-eq (x ∷ a) (y ∷ b) h = ground (arith, order-eq a b)
order-eq _ _ h = cc

pub order_trans :
    (a b c : Bytes) → order a b ≡ Ordering.lt → order b c ≡ Ordering.lt → order a c ≡ Ordering.lt
order_trans [] (y ∷ b) (z ∷ c) h k = refl
order_trans (x ∷ a) (y ∷ b) (z ∷ c) h k = ground (arith, order_trans a b c)
order_trans [] [] c h k = cc
order_trans _ _ _ h k = ground arith

pub order-gt : (a b : Bytes) → order a b ≡ Ordering.gt → order b a ≡ Ordering.lt
order-gt (x ∷ a) (y ∷ b) h = ground (arith, order-gt a b)
order-gt _ _ h = ground arith
