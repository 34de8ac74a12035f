-- ===== src/Complex.antt =====
-- `complex` of include/complex.hpp and src/complex.cpp. The type `double` and its operations are an
-- argument.
pub mod Commutes
mod Examples
use ztd.Base.{◌++◌, ◌∷◌}
use ztd.Base.Text.{Bytes, codes}

-- The operations of `double`, the functions of math.h, and the output of a `double`.
pub record Double (A : Type 0) : Type 0 where
  pub zero : A
  pub one : A
  pub add : A → A → A
  pub sub : A → A → A
  pub mul : A → A → A
  pub div : A → A → A
  pub sqrt : A → A
  pub atan2 : A → A → A
  pub print : A → Bytes

pub record Complex (A : Type 0) : Type 0 where
  pub real : A
  pub im : A

module _ {A : Type 0} (d : Double A) where
  -- `complex(a, b)`.
  abbrev pub complex : A → A → Complex A
  complex a b = record { real = a; im = b }

  -- `complex(z)`.
  abbrev pub copied_complex : Complex A → Complex A
  copied_complex z = record { real = z.real; im = z.im }

  -- The constant `i`.
  abbrev pub i : Complex A
  i = complex d.zero d.one

  -- `operator=`.
  abbrev pub assign : Complex A → Complex A → Complex A
  assign self z = record self { real = z.real; im = z.im }

  -- `operator+=`, the object behind it.
  unfoldable pub add_assign : Complex A → Complex A → Complex A
  add_assign self z = record { real = d.add self.real z.real; im = d.add self.im z.im }

  unfoldable pub sub_assign : Complex A → Complex A → Complex A
  sub_assign self z = record { real = d.sub self.real z.real; im = d.sub self.im z.im }

  unfoldable pub mul_assign : Complex A → Complex A → Complex A
  mul_assign self z =
      let r = self.real in
      let self' = record self { real = d.sub (d.mul self.real z.real) (d.mul self.im z.im) } in
      record self' { im = d.add (d.mul r z.im) (d.mul self'.im z.real) }

  -- `div` of `operator/=`.
  abbrev pub divisor : Complex A → A
  divisor z = d.add (d.mul z.real z.real) (d.mul z.im z.im)

  unfoldable pub div_assign : Complex A → Complex A → Complex A
  div_assign self z =
      let r = self.real in
      let by = divisor z in
      let self' = record self {
        real = d.div (d.add (d.mul self.real z.real) (d.mul self.im z.im)) by;
      } in
      record self' { im = d.div (d.sub (d.mul self'.im z.real) (d.mul r z.im)) by }

  -- `operator+`, `operator-`, `operator*` and `operator/` on a copy of the first number.
  unfoldable pub plus : Complex A → Complex A → Complex A
  unfolding add_assign
  plus z1 z2 = add_assign z1 z2

  unfoldable pub minus : Complex A → Complex A → Complex A
  unfolding sub_assign
  minus z1 z2 = sub_assign z1 z2

  unfoldable pub times : Complex A → Complex A → Complex A
  unfolding mul_assign
  times z1 z2 = mul_assign z1 z2

  unfoldable pub over : Complex A → Complex A → Complex A
  unfolding div_assign
  over z1 z2 = div_assign z1 z2

  -- `mod` and `arg`.
  abbrev pub mod_of : Complex A → A
  mod_of z = d.sqrt (d.add (d.mul z.real z.real) (d.mul z.im z.im))

  abbrev pub arg : Complex A → A
  arg z = d.atan2 z.real z.im

  -- `operator<<`.
  abbrev pub shown_complex : Complex A → Bytes
  shown_complex z = d.print z.real ++ (codes "+" ++ (d.print z.im ++ codes "i"))
