-- ===== src/Config/Numbers.antt =====
-- Different numbers have different digits, and give different suffixes (%d of package fmt, read back
-- by strconv.Atoi; DisambiguateName in app/internal/config/profile.go).
use shell_agent_v.Base.{
  ℕ, zero, suc, ◌+◌, ◌-◌, ◌*◌, ◌/◌, ◌%◌, ◌<◌, ◌≡◌, refl, sym, ap, ◌∙◌, ◌&&◌, some, [], ◌∷◌, ◌++◌,
  length, drop, leb, ltb, arith, inl, inr, Bool-cases,
}
use shell_agent_v.Text.{Text, codes}
use shell_agent_v.Memory.Prompt.{decimal, decimal_from}
use shell_agent_v.TextTools.{digits_from}
use shell_agent_v.Config.{suffixed}

-- One more digit behind a number.
digits_from-snoc :
    (a b : ℕ) (s : Text) (d : ℕ)
    → digits_from a s ≡ some b
    → d < 10
    → digits_from a (s ++ (0x30 + d) ∷ []) ≡ some (b * 10 + d)
unfolding digits_from
digits_from-snoc a b [] d h k = ground (arith, h, k)
digits_from-snoc a b (c ∷ s) d h k = elim (Bool-cases (leb 0x30 c && leb c 0x39)) [
  | inl e ↦
      let rest = digits_from-snoc (a * 10 + (c - 0x30)) b s d (ground (arith, e, h)) k in rw e rest
  | inr e ↦ ground (arith, e, h)
]

digits_from-decimal_from : (fuel n : ℕ) → n < fuel → digits_from 0 (decimal_from fuel n) ≡ some n
unfolding decimal_from
digits_from-decimal_from zero n h = ground (arith, h)
digits_from-decimal_from (suc fuel) n h = elim (Bool-cases (ltb n 10)) [
  | inl e ↦
      let value : (0 * 10 + n % 10 ≡ n) = ground (arith, e) in
      rw e (
        digits_from-snoc 0 0 [] (n % 10) (unfold digits_from in refl) (omega arith) ∙ ap some value)
  | inr e ↦
      let value : (n / 10 * 10 + n % 10 ≡ n) = omega arith in
      let smaller : (n / 10 < fuel) = ground (arith, e, h) in
      rw e (
        digits_from-snoc 0 (n / 10) (decimal_from fuel (n / 10)) (n % 10)
          (digits_from-decimal_from fuel (n / 10) smaller) (omega arith)
        ∙ ap some value)
]

-- The digits of a number read back as the number.
pub digits_from-decimal : (n : ℕ) → digits_from 0 (decimal n) ≡ some n
unfolding decimal
digits_from-decimal n = digits_from-decimal_from (suc n) n (omega arith)

some_same : {A : Type 0} (a b : A) → some a ≡ some b → a ≡ b
some_same a b h = cc

decimal-apart : (i j : ℕ) → decimal i ≡ decimal j → i ≡ j
decimal-apart i j h =
    some_same i j (sym (digits_from-decimal i) ∙ ap (digits_from 0) h ∙ digits_from-decimal j)

-- A text without its last byte.
front : Text → Text
front [] = []
front (c ∷ []) = []
front (c ∷ d ∷ s) = c ∷ front (d ∷ s)

front-snoc : (s : Text) (c : ℕ) → front (s ++ c ∷ []) ≡ s
unfolding front
front-snoc [] c = refl
front-snoc (d ∷ []) c = refl
front-snoc (d ∷ e ∷ s) c = ap (λ t. d ∷ t) (front-snoc (e ∷ s) c)

drop-front : (a b : Text) → drop (length a) (a ++ b) ≡ b
drop-front [] b = refl
drop-front (c ∷ a) b = drop-front a b

-- The number in a suffix.
number_in : Text → Text → Text
number_in desired t = front (drop 2 (drop (length desired) t))

number_in-suffixed : (desired : Text) (n : ℕ) → number_in desired (suffixed desired n) ≡ decimal n
unfolding number_in suffixed
number_in-suffixed desired n =
    ap (λ t. front (drop 2 t)) (drop-front desired (codes " (" ++ (decimal n ++ codes ")")))
    ∙ front-snoc (decimal n) b')'

-- Different numbers give different suffixes.
pub suffixed-apart : (desired : Text) (i j : ℕ) → suffixed desired i ≡ suffixed desired j → i ≡ j
suffixed-apart desired i j h =
    decimal-apart i j
      (sym (number_in-suffixed desired i) ∙ ap (number_in desired) h ∙ number_in-suffixed desired j)
