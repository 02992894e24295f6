-- ===== src/Stats.antt =====
-- The running mean and deviation of common/RunningStats.cpp. `n` is a `long long`, which no caller
-- lets pass a few thousand, and is a natural number here.
use jammer_netz.Base.{ℕ, ◌+◌, ◌≡◌, refl}
use jammer_netz.Platform.{Platform}

module _ (P : Platform) where
  open P use {Float, literal, of_nat, add, sub, mul, div, sqrt, pow}

  pub record RunningStats : Type 0 where
    pub n : ℕ
    pub m1 : Float
    pub m2 : Float
    pub m3 : Float
    pub m4 : Float

  -- The constructor, and `Clear`.
  pub cleared : RunningStats
  cleared = record { n = 0; m1 = literal 0 0; m2 = literal 0 0; m3 = literal 0 0; m4 = literal 0 0 }

  -- `M4`, `M3` and `M2` are updated in this order, each from the old values behind it.
  pub push_value : Float → RunningStats → RunningStats
  push_value x s = record {
    n = s.n + 1;
    m1 = add s.m1 delta_n;
    m2 = add s.m2 term1;
    m3 = add s.m3 (
        sub (mul (mul term1 delta_n) (sub count (literal 2 0)))
          (mul (mul (literal 3 0) delta_n) s.m2));
    m4 = add s.m4 (
        sub
          (add
            (mul (mul term1 delta_n2)
              (add (sub (mul count count) (mul (literal 3 0) count)) (literal 3 0)))
            (mul (mul (literal 6 0) delta_n2) s.m2))
          (mul (mul (literal 4 0) delta_n) s.m3));
  }
    where
      count : Float
      count = of_nat (s.n + 1)

      delta : Float
      delta = sub x s.m1

      delta_n : Float
      delta_n = div delta count

      delta_n2 : Float
      delta_n2 = mul delta_n delta_n

      term1 : Float
      term1 = mul (mul delta delta_n) (of_nat s.n)

  pub mean : RunningStats → Float
  mean s = s.m1

  pub variance : RunningStats → Float
  variance s = div s.m2 (sub (of_nat s.n) (literal 1 0))

  pub standard_deviation : RunningStats → Float
  unfolding variance
  standard_deviation s = sqrt (variance s)

  pub skewness : RunningStats → Float
  skewness s = div (mul (sqrt (of_nat s.n)) s.m3) (pow s.m2 (literal 15 1))

  pub kurtosis : RunningStats → Float
  kurtosis s = sub (div (mul (of_nat s.n) s.m4) (mul s.m2 s.m2)) (literal 3 0)

  -- `operator+`.
  pub combine : RunningStats → RunningStats → RunningStats
  combine a b = record {
    n = a.n + b.n;
    m1 = div (add (mul a_count a.m1) (mul b_count b.m1)) total;
    m2 = add (add a.m2 b.m2) (div (mul (mul delta2 a_count) b_count) total);
    m3 =
        add
          (add (add a.m3 b.m3)
            (div (mul (mul (mul delta3 a_count) b_count) (sub a_count b_count)) (mul total total)))
          (div (mul (mul (literal 3 0) delta) (sub (mul a_count b.m2) (mul b_count a.m2))) total);
    m4 =
        add
          (add (add a.m4 b.m4) (
            div
              (mul (mul (mul delta4 a_count) b_count)
                (add (sub (mul a_count a_count) (mul a_count b_count)) (mul b_count b_count)))
              (mul (mul total total) total)))
          (add
            (div
              (mul (mul (literal 6 0) delta2)
                (add (mul (mul a_count a_count) b.m2) (mul (mul b_count b_count) a.m2)))
              (mul total total))
            (div (mul (mul (literal 4 0) delta) (sub (mul a_count b.m3) (mul b_count a.m3)))
              total));
  }
    where
      a_count : Float
      a_count = of_nat a.n

      b_count : Float
      b_count = of_nat b.n

      total : Float
      total = of_nat (a.n + b.n)

      delta : Float
      delta = sub b.m1 a.m1

      delta2 : Float
      delta2 = mul delta delta

      delta3 : Float
      delta3 = mul delta delta2

      delta4 : Float
      delta4 = mul delta2 delta2

  pub n-push_value : (x : Float) (s : RunningStats) → (push_value x s).n ≡ s.n + 1
  unfolding push_value
  n-push_value x s = refl

  pub n-cleared : cleared.n ≡ 0
  unfolding cleared
  n-cleared = refl
