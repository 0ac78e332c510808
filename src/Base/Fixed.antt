-- ===== src/Base/Fixed.antt =====
-- Numbers with six decimals and no sign, as a carrier for `double` at which the operations can be run.
use Prim.Native.Nat.{ℕ, ◌+◌, ◌-◌, ◌*◌, ◌/◌}
use membra_l3_cpp.Base.Tests.{ltb, leb, ◌==◌}
use membra_l3_cpp.Base.Decimal.{to_string}
use membra_l3_cpp.Base.Double.{Double}

instance abbrev pub fixed : Double ℕ
fixed = record {
  lit = λ m n. m * 1_000_000 / n;
  add = λ a b. a + b;
  sub = λ a b. a - b;
  mul = λ a b. a * b / 1_000_000;
  div = λ a b. a * 1_000_000 / b;
  neg = λ a. 0;
  abs = λ a. a;
  eq = λ a b. a == b;
  lt = ltb;
  le = leb;
  of_u64 = λ n. n * 1_000_000;
  to_u64 = λ a. a / 1_000_000;
  shown = to_string;
  printed = to_string;
}
