-- ===== src/Tests/Floats.antt =====
-- Floats for the tests: fixed-point numbers in hundredths, with the operations rounded down.
use stiebel_eltron_heatpump.Prelude.{zero, suc, ℤ, pos, ◌+ℤ◌, ◌*ℤ◌, div_ℤ, ltb_ℤ, not, ◌||◌}
use stiebel_eltron_heatpump.Errors.{Result, ok, err, zero_division}
use stiebel_eltron_heatpump.Models.{FloatOps}

abbrev divide : ℤ → ℤ → Result ℤ
divide a (pos zero) = err zero_division
divide a (pos (suc n)) = ok (div_ℤ (a *ℤ pos 100) (suc n))
divide a _ = err zero_division

abbrev pub fixed : FloatOps ℤ
fixed = record {
  zero = pos 0;
  one = pos 100;
  half = pos 50;
  hundred = pos 10000;
  of_int = λ n. ok (n *ℤ pos 100);
  eq = λ a b. not (ltb_ℤ a b || ltb_ℤ b a);
  lt = ltb_ℤ;
  int_lt = λ n a. ltb_ℤ (n *ℤ pos 100) a;
  lt_int = λ a n. ltb_ℤ a (n *ℤ pos 100);
  add = λ a b. a +ℤ b;
  mul = λ a b. div_ℤ (a *ℤ b) 100;
  div = divide;
  floor = λ a. ok (div_ℤ a 100);
}
