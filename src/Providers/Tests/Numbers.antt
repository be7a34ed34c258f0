-- ===== src/Providers/Tests/Numbers.antt =====
-- Arithmetic for the tests: the decimals are the natural numbers, and a text is one code point.
use follow_the_money.Base.{ℕ, zero, suc, ◌+◌, ◌-◌, ◌*◌, true, Option, none, some, [], ◌∷◌, leb}
use Prim.Native.Nat.{◌/◌}
use follow_the_money.Base.Order.{Str}
use follow_the_money.Providers.Rate.State.{Host}

unfoldable pub parse : Str → Option ℕ
parse (n ∷ []) = some n
parse _ = none

-- The quotient, zero for a divisor of zero.
unfoldable pub quotient : ℕ → ℕ → ℕ
quotient a zero = 0
quotient a (suc b) = a / suc b

abbrev pub host : Host
host = record {
  Decimal = ℕ;
  parse = parse;
  normalize = λ n. n;
  format_fixed = λ n. n ∷ [];
  str = λ n. n ∷ [];
  of_nat = λ n. n;
  is_finite = λ n. true;
  leq = leb;
  add = λ a b. a + b;
  sub = λ a b. a - b;
  mul = λ a b. a * b;
  div = quotient;
  from_micros = λ n. n / 1000000;
  to_micros = λ n. some (n * 1000000);
  fingerprint = λ c p i. p ∷ i ∷ c;
  scope_file = λ id. id;
  root_identity = [];
}
