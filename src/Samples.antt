-- ===== src/Samples.antt =====
-- Concrete stand-ins for the parameters of the model, for tests: floating-point numbers as
-- hundredths in ℕ, without a sign, so that `exp` falls as it does on negated numbers, and small
-- records.
use exoskeleton.Base.{
  ltb, leb, ℕ, zero, suc, ◌+◌, ◌-◌, ◌*◌, ◌/◌, ◌^◌, min, max, String, ◌≡◌, refl, ap, ◌∙◌, Option,
  some, arith, none, Bool, false,
}
use exoskeleton.Base.Float.{F64}
use Prim.Native.String as S
use text.Mathlib.TextLemmas.{length-append}

instance abbrev pub hundredths : F64 ℕ
hundredths = record {
  lt = ltb;
  le = leb;
  add = λ a b. a + b;
  sub = λ a b. a - b;
  mul = λ a b. (a * b) / 100;
  div = λ a b. (a * 100) / b;
  neg = λ a. a;
  exp = λ a. 10000 / (100 + a);
  least = min;
  greatest = max;
  abs = λ a. a;
  round = λ a. ((a + 50) / 100) * 100;
  to_u64 = λ a. a / 100;
  of_u64 = λ n. n * 100;
  decimal = λ m k. (m * 100) / (10 ^ k);
  max_value = 1000000;
  epsilon = 0;
}

abbrev both : (ℕ → ℕ → ℕ) → Option ℕ → Option ℕ → Option ℕ
both op (some a) (some b) = some (op a b)
both op (some a) none = none
both op none b = none

abbrev compare_both : (ℕ → ℕ → Bool) → Option ℕ → Option ℕ → Bool
compare_both test (some a) (some b) = test a b
compare_both test (some a) none = false
compare_both test none b = false

-- The one of two that is a number, if only one is.
abbrev one_of : (ℕ → ℕ → ℕ) → Option ℕ → Option ℕ → Option ℕ
one_of op (some a) (some b) = some (op a b)
one_of op (some a) none = some a
one_of op none b = b

-- The same numbers with a NaN, which is `none`.
abbrev pub hundredths_or_nan : F64 (Option ℕ)
hundredths_or_nan = record {
  lt = compare_both hundredths.lt;
  le = compare_both hundredths.le;
  add = both hundredths.add;
  sub = both hundredths.sub;
  mul = both hundredths.mul;
  div = both hundredths.div;
  neg = λ a. a;
  exp = λ a. both (λ x y. hundredths.exp x) a a;
  least = one_of min;
  greatest = one_of max;
  abs = λ a. a;
  round = λ a. both (λ x y. hundredths.round x) a a;
  to_u64 = λ a. elim a [ none ↦ 0 | some x ↦ hundredths.to_u64 x ];
  of_u64 = λ n. some (hundredths.of_u64 n);
  decimal = λ m k. some (hundredths.decimal m k);
  max_value = some hundredths.max_value;
  epsilon = some hundredths.epsilon;
}

-- A number as so many strokes.
abbrev pub strokes : ℕ → String
strokes zero = ""
strokes (suc n) = S.◌++◌ "x" (strokes n)

abbrev pub count_strokes : String → Option ℕ
count_strokes s = some (S.count s)

pub count_strokes-strokes : (n : ℕ) → count_strokes (strokes n) ≡ some n
count_strokes-strokes n = ap some (go n)
  where
    go : (k : ℕ) → S.count (strokes k) ≡ k
    go zero = refl
    go (suc k) = length-append "x" (strokes k) ∙ omega (arith, go k)
