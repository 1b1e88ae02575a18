-- ===== src/Examples/Hundredths.antt =====
-- Numbers in hundredths, in the place of Go's floating point numbers, and letters without case.
use shell_agent_v.Base.{ℕ, zero, suc, ◌*◌, ◌/◌, ◌≤◌, ◌≡◌, true, ltb, leb, ◌==◌, ◌&&◌, arith}
use shell_agent_v.Memory.Floats.{Platform, IsOrdered}

abbrev pub over : ℕ → ℕ → ℕ
over n zero = 0
over n (suc d) = n * 100 / suc d

abbrev pub hundredths : Platform ℕ
hundredths = record {
  lt = ltb;
  le = leb;
  eq = λ a b. a == b;
  mul = λ a b. a * b / 100;
  ratio = over;
  scale = λ n f. n * f / 100;
  lower = λ s. s;
  is_word = λ r. leb b'a' r && leb r b'z';
}

times_hundred : (a r : ℕ) → r ≤ 100 → a * r ≤ a * 100
times_hundred zero r h = omega arith
times_hundred (suc a) r h = omega (arith, h, times_hundred a r h)

shrinks : (a r : ℕ) → leb r 100 ≡ true → leb (a * r / 100) a ≡ true
shrinks a r h = ground (arith, times_hundred a r)

pub hundredths-IsOrdered : IsOrdered hundredths
hundredths-IsOrdered = record {
  le_refl = λ a. ground arith;
  le_trans = λ a b c h k. ground arith;
  not_le = λ a b h. ground arith;
  not_lt = λ a b h. ground arith;
  lt_le = λ a b h. ground arith;
  lt_irrefl = λ a. ground arith;
  lt_trans = λ a b c h k. ground arith;
  lt_eq = λ a b c h k. ground arith;
  mul_le = λ a r h k. shrinks a r k;
}
