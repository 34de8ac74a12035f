-- ===== src/Complex/Examples.antt =====
-- Complex numbers over an arithmetic that rounds: natural numbers up to 9, which larger ones become.
use ztd.Base.{ℕ, ◌+◌, ◌*◌, ◌-◌, leb, if◌then◌else◌, ◌≡◌, [], ap}
use native.Mathlib.Nat.{add_comm, mul_comm}
use ztd.Complex.{Double, Complex, complex, plus, times}
use ztd.Complex.Commutes.{Commutes, plus-times_comm}

abbrev rounded : ℕ → ℕ
rounded n = if leb n 9 then n else 9

abbrev arithmetic : Double ℕ
arithmetic = record {
  zero = 0;
  one = 1;
  add = λ x y. rounded (x + y);
  sub = λ x y. x - y;
  mul = λ x y. rounded (x * y);
  div = λ x y. x;
  sqrt = λ x. x;
  atan2 = λ x y. x;
  print = λ x. [];
}

arithmetic-Commutes : Commutes arithmetic
arithmetic-Commutes = record {
  add_comm = λ x y. ap rounded (add_comm x y);
  mul_comm = λ x y. ap rounded (mul_comm x y);
}

abbrev z : Complex ℕ
z = complex arithmetic 2 1

abbrev w : Complex ℕ
w = complex arithmetic 5 3

plus-times_comm_example :
    (plus arithmetic z w ≡ plus arithmetic w z) × (times arithmetic z w ≡ times arithmetic w z)
plus-times_comm_example = plus-times_comm arithmetic z w arithmetic-Commutes
