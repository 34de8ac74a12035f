-- ===== src/Error.antt =====
-- `format_error` of include/filedat.hpp, and the outcome of a call that may throw it.
use mathlib.Core.Path.{subst, sym}
use ztd.Base.{
  ◌≢◌, Bool, true, false, ◌≡◌, refl, ℕ, zero, suc, ◌+◌, ◌%◌, [], ◌∷◌, ◌++◌, ltb, if◌then◌else◌,
}
use ztd.Base.Int.{ℤ}
use ztd.Base.Text.{Bytes}
use Prim.Native.Nat.{◌/◌}

pub record FormatError : Type 0 where
  pub desc : Bytes
  pub filename : Bytes
  pub sdat : Bytes
  pub index : ℤ

-- The constructor, with its arguments in their order: what, origin, data, where.
abbrev pub format_error : Bytes → Bytes → Bytes → ℤ → FormatError
format_error what origin text position = record {
  desc = what;
  filename = origin;
  sdat = text;
  index = position;
}

-- `thrown` is an exception. `fault` is undefined behaviour: an access outside of a string.
-- `out_of_fuel` has no counterpart in the program.
pub data Result {ℓ} (A : Type ℓ) : Type ℓ where
  ok : A → Result A
  thrown : FormatError → Result A
  fault : Result A
  out_of_fuel : Result A

infixl 5 ◌>>=◌
abbrev pub ◌>>=◌ {ℓ κ} : {A : Type ℓ} {B : Type κ} → Result A → (A → Result B) → Result B
ok a >>= f = f a
thrown e >>= f = thrown e
fault >>= f = fault
out_of_fuel >>= f = out_of_fuel

-- `try { ... } catch(format_error& e) { throw f(e); }`
abbrev pub rethrow {ℓ} : {A : Type ℓ} → (FormatError → FormatError) → Result A → Result A
rethrow f (ok a) = ok a
rethrow f (thrown e) = thrown (f e)
rethrow f fault = fault
rethrow f out_of_fuel = out_of_fuel

-- `std::to_string` on an unsigned number.
decimal : ℕ → ℕ → Bytes
decimal zero n = []
decimal (suc f) n =
    let higher = decimal f (n / 10) in
    if ltb n 10 then (48 + n) ∷ [] else higher ++ (48 + n % 10) ∷ []

unfoldable pub to_string : ℕ → Bytes
unfolding decimal
to_string n = decimal (suc n) n

-- The call kept within its fuel, and `P` holds of the value if it returned one.
pub data Ensures {ℓ κ} {A : Type ℓ} (P : A → Type κ) : Result A → Type (ℓ ⊔ κ) where
  holds : {a : A} → P a → Ensures P (ok a)
  throws : {e : FormatError} → Ensures P (thrown e)
  faults : Ensures P fault

module _ {ℓ κ} {A : Type ℓ} {P : A → Type κ} where
  pub Ensures-ok : {r : Result A} {a : A} → Ensures P r → r ≡ ok a → P a
  Ensures-ok (holds h) e = subst P (cc) h
  Ensures-ok throws e = cc
  Ensures-ok faults e = cc

  pub Ensures-ne-out_of_fuel : {r : Result A} → Ensures P r → r ≢ out_of_fuel
  Ensures-ne-out_of_fuel (holds h) = cc
  Ensures-ne-out_of_fuel throws = cc
  Ensures-ne-out_of_fuel faults = cc

  pub Ensures-if :
      (b : Bool) {x y : Result A}
      → (b ≡ true → Ensures P x)
      → (b ≡ false → Ensures P y)
      → Ensures P (if b then x else y)
  Ensures-if true hx hy = hx refl
  Ensures-if false hx hy = hy refl

  pub Ensures-rethrow :
      (f : FormatError → FormatError) {r : Result A} → Ensures P r → Ensures P (rethrow f r)
  Ensures-rethrow f (holds h) = holds h
  Ensures-rethrow f throws = throws
  Ensures-rethrow f faults = faults

  pub Ensures-bind {ℓ' κ'} :
      {B : Type ℓ'} {Q : B → Type κ'} {r : Result A} {f : A → Result B}
      → Ensures P r
      → ((a : A) → P a → Ensures Q (f a))
      → Ensures Q (r >>= f)
  Ensures-bind (holds {a} h) k = k a h
  Ensures-bind throws k = throws
  Ensures-bind faults k = faults

pub Ensures-mono {ℓ κ κ'} :
    {A : Type ℓ} {P : A → Type κ} {Q : A → Type κ'} {r : Result A}
    → Ensures P r
    → ((a : A) → P a → Q a)
    → Ensures Q r
Ensures-mono (holds {a} h) k = holds (k a h)
Ensures-mono throws k = throws
Ensures-mono faults k = faults

-- The call returned, and `P` holds of the value.
pub data Yields {ℓ κ} {A : Type ℓ} (P : A → Type κ) : Result A → Type (ℓ ⊔ κ) where
  returns : {a : A} → P a → Yields P (ok a)

module _ {ℓ κ} {A : Type ℓ} {P : A → Type κ} where
  pub Yields-rethrow :
      (f : FormatError → FormatError) {r : Result A} → Yields P r → Yields P (rethrow f r)
  Yields-rethrow f (returns h) = returns h

  pub Yields-bind {ℓ' κ'} :
      {B : Type ℓ'} {Q : B → Type κ'} {r : Result A} {f : A → Result B}
      → Yields P r
      → ((a : A) → P a → Yields Q (f a))
      → Yields Q (r >>= f)
  Yields-bind (returns {a} h) k = k a h

  pub Yields-subst : {r s : Result A} → r ≡ s → Yields P s → Yields P r
  Yields-subst e y = subst (Yields P) (sym e) y

pub Yields-mono {ℓ κ κ'} :
    {A : Type ℓ} {P : A → Type κ} {Q : A → Type κ'} {r : Result A}
    → Yields P r
    → ((a : A) → P a → Q a)
    → Yields Q r
Yields-mono (returns {a} h) k = returns (k a h)

pub Yields-value {ℓ κ} :
    {A : Type ℓ} {P : A → Type κ} {r : Result A} → Yields P r → (a : A) × (r ≡ ok a) × P a
Yields-value (returns {a} h) = (a, refl, h)
