-- ===== src/Memory/Floats.antt =====
-- What the program takes from Go's floating point numbers and from package unicode. `ratio n d` is
-- float64(n) / float64(d) and spells the literals, and `scale n f` is int(float64(n) * f).
use shell_agent_v.Base.{ℕ, ◌≡◌, Bool, true, false}
use shell_agent_v.Text.{Text}

pub record Platform (F : Type 0) : Type 0 where
  pub lt : F → F → Bool
  pub le : F → F → Bool
  pub eq : F → F → Bool
  pub mul : F → F → F
  pub ratio : ℕ → ℕ → F
  pub scale : ℕ → F → ℕ
  pub lower : Text → Text
  -- unicode.IsLetter, IsDigit or IsMark
  pub is_word : ℕ → Bool

abbrev pub nought : {F : Type 0} → Platform F → F
nought p = p.ratio 0 1

abbrev pub one : {F : Type 0} → Platform F → F
one p = p.ratio 1 1

-- The order of the numbers that occur, NaN not being among them, and a product with a factor up to
-- one.
pub record IsOrdered {F : Type 0} (p : Platform F) : Type 0 where
  pub le_refl : (a : F) → p.le a a ≡ true
  pub le_trans : (a b c : F) → p.le a b ≡ true → p.le b c ≡ true → p.le a c ≡ true
  pub not_le : (a b : F) → p.le a b ≡ false → p.le b a ≡ true
  pub not_lt : (a b : F) → p.lt a b ≡ false → p.le b a ≡ true
  pub lt_le : (a b : F) → p.lt a b ≡ true → p.le a b ≡ true
  pub lt_irrefl : (a : F) → p.lt a a ≡ false
  pub lt_trans : (a b c : F) → p.lt a b ≡ true → p.lt b c ≡ true → p.lt a c ≡ true
  pub lt_eq : (a b c : F) → p.lt a b ≡ true → p.eq b c ≡ true → p.lt a c ≡ true
  pub mul_le :
      (a r : F) → p.le (nought p) a ≡ true → p.le r (one p) ≡ true → p.le (p.mul a r) a ≡ true
