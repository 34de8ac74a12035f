-- ===== src/Complex/Commutes.antt =====
-- `operator+` and `operator*` of src/complex.cpp with their arguments the other way round.
use ztd.Base.{◌≡◌, refl}
use ztd.Complex.{Double, Complex, plus, times}

-- What IEC 60559 says of the addition and the multiplication of two numbers of type double, each with
-- its rounding. The bits of a NaN are left out.
pub record Commutes {A : Type 0} (d : Double A) : Type 0 where
  pub add_comm : (x y : A) → d.add x y ≡ d.add y x
  pub mul_comm : (x y : A) → d.mul x y ≡ d.mul y x

-- In an arithmetic whose addition and multiplication commute, as those of double do, `operator+` and
-- `operator*` give the same number with their arguments the other way round, though
-- `operator*=` writes the real part before it computes the imaginary part.
pub plus-times_comm :
    {A : Type 0} (d : Double A) (z w : Complex A)
    → Commutes d
    → (plus d z w ≡ plus d w z) × (times d z w ≡ times d w z)
unfolding plus times
plus-times_comm d z w c = (
  rw (c.add_comm z.real w.real, c.add_comm z.im w.im) refl,
  rw
      (
        c.mul_comm z.real w.real,
        c.mul_comm z.im w.im,
        c.mul_comm z.real w.im,
        c.mul_comm z.im w.real,
        c.add_comm (d.mul w.im z.real) (d.mul w.real z.im),
      )
      refl,
)
