-- ===== src/TextTools/Ranges.antt =====
-- The ranges of lines that the text tools accept, and what get-text returns
-- (app/internal/agent/text_tools.go).
use shell_agent_v.Base.{
  ℕ, zero, suc, ◌+◌, ◌-◌, ◌≤◌, ◌<◌, ◌≡◌, ◌⊎◌, refl, Option, some, List, [], ◌∷◌, ◌++◌, length, take,
  get_elem?, ltb, ◌==◌, min, if◌then◌else◌, arith, inl, inr, Bool-cases, length-append, length-take,
}
use shell_agent_v.Text.{Text, codes}
use shell_agent_v.Chunker.{split_lines}
use shell_agent_v.Memory.Prompt.{decimal}
use shell_agent_v.Objects.{Store, ObjectMeta, count_breaks}
use shell_agent_v.TextTools.{
  ℤ, pos, negsuc, Answer, ok, error, ◌>>=◌, range_ends, clamp, at_least_one, parse_line_range,
  count_lines, number_lines, get_text, read_range, show_range, cap_output, output_cap, trimmed,
  resolve_text_object, max_lines,
}

-- Inversion of a step of a chain.
>>=-ok :
    {A B : Type 0} (m : Answer A) (f : A → Answer B) (b : B)
    → (m >>= f) ≡ ok b
    → (a : A) × (m ≡ ok a) × (f a ≡ ok b)
>>=-ok (ok a) f b h = (a, refl, h)
>>=-ok (error e) f b h = cc

at_least_one-positive : (n : ℤ) → 1 ≤ at_least_one n
at_least_one-positive (pos zero) = omega arith
at_least_one-positive (pos (suc n)) = omega arith
at_least_one-positive (negsuc n) = omega arith

clamp-within :
    (total : ℕ) (ends : ℤ × ℤ) (a b : ℕ)
    → clamp total ends ≡ ok (a, b)
    → (1 ≤ a) × (a ≤ b) × (b ≤ total)
unfolding clamp
clamp-within total (start, pos n) a b h =
    let one : (1 ≤ at_least_one start) = at_least_one-positive start in
    elim (Bool-cases (ltb (min n total) (at_least_one start))) [
      | inl e ↦ ground (arith, e, h)
      | inr e ↦ ground (arith, e, h, one)
    ]
clamp-within total (start, negsuc n) a b h = ground (arith, h)

-- A range of lines that is accepted begins at the first line or later, ends at the last line or
-- before, and has at least one line unless the document has none.
pub parse_line_range-within :
    (s : Text) (total a b : ℕ)
    → parse_line_range s total ≡ ok (a, b)
    → (1 ≤ a) × (b ≤ total) × ((a ≤ b) ⊎ (total ≡ 0))
unfolding parse_line_range
parse_line_range-within s total a b h = elim (Bool-cases (length (trimmed s) == 0)) [
  | inl e ↦ elim (Bool-cases (total == 0)) [
    | inl q ↦ ground (arith, e, q, h)
    | inr q ↦ ground (arith, e, q, h)
  ]
  | inr e ↦ elim (Bool-cases (total == 0)) [
    | inl q ↦ ground (arith, e, q, h)
    | inr q ↦
        let chain : ((range_ends (trimmed s) total >>= λ ends. clamp total ends) ≡ ok (a, b)) =
          ground (arith, e, q, h) in
        let (ends, _, k) =
          >>=-ok (range_ends (trimmed s) total) (λ x. clamp total x) (a, b) chain in
        let (one, fits, last) = clamp-within total ends a b k in (one, last, inl fits)
  ]
]

-- The lines of a document are as many as countLines says, but for the empty one.
length-extended :
    (c : ℕ) (rest : List Text) (n : ℕ)
    → length rest ≡ suc n
    → length (elim rest as (λ x. List Text) [
      | [] ↦ (c ∷ []) ∷ []
      | l ∷ ls ↦ if c == 0x0A then [] ∷ l ∷ ls else (c ∷ l) ∷ ls
    ])
      ≡ suc ((if c == 0x0A then 1 else 0) + n)
length-extended c [] n h = ground (arith, h)
length-extended c (l ∷ ls) n h = ground (arith, h)

length-split_lines : (s : Text) → length (split_lines s) ≡ suc (count_breaks s)
unfolding split_lines count_breaks
length-split_lines [] = refl
length-split_lines (c ∷ s) =
    length-extended c (split_lines s) (count_breaks s) (length-split_lines s)

count_lines_bound : (s : Text) → count_lines s ≤ length (split_lines s)
unfolding count_lines
count_lines_bound [] = omega arith
count_lines_bound (c ∷ s) = omega (arith, length-split_lines (c ∷ s))

get_elem?-in :
    {A : Type 0} (xs : List A) (i : ℕ) → i < length xs → (x : A) × (get_elem? xs i ≡ some x)
get_elem?-in [] i h = ground (arith, h)
get_elem?-in (x ∷ xs) zero h = (x, refl)
get_elem?-in (x ∷ xs) (suc i) h = get_elem?-in xs i (omega (arith, h))

-- The loop of get-text meets no index out of range.
number_lines-some :
    (n ln : ℕ) (lines : List Text)
    → 1 ≤ ln
    → n ≤ suc (length lines) - ln
    → (t : Text) × (number_lines n ln lines ≡ some t)
unfolding number_lines
number_lines-some zero ln lines h k = ([], refl)
number_lines-some (suc n) ln lines h k =
    let (l, e) = get_elem?-in lines (ln - 1) (omega (arith, h, k)) in
    let (r, q) = number_lines-some n (suc ln) lines (omega arith) (omega (arith, k)) in
    (decimal ln ++ (codes ": " ++ (l ++ (codes "\n" ++ r))), ground (arith, e, q))

cap_output_bound : (note out : Text) → length (cap_output note out) ≤ 10006 + length note
unfolding cap_output
cap_output_bound note out = elim (Bool-cases (ltb output_cap (length out))) [
  | inl e ↦ rw e (
      omega (
        arith,
        length-append (take output_cap out) (codes "\n\n... " ++ note),
        length-append (codes "\n\n... ") note,
        length-take output_cap out,
      ))
  | inr e ↦ rw e (ground (arith, e))
]

show_range-fits :
    (content : Text) (start end : ℕ) (r : Option Text)
    → 1 ≤ start
    → show_range content (start, end) ≡ ok r
    → (t : Text) × (r ≡ some t) × (length t ≤ 10043) × (end + 1 - start ≤ max_lines)
unfolding show_range
show_range-fits content start end r one h =
    let lines = split_lines content in
    let note = codes "(truncated; request a narrower range)" in
    let (t, e) =
      number_lines-some (min end (length lines) + 1 - start) start lines one (omega (arith, one)) in
    elim (Bool-cases (ltb max_lines (end + 1 - start))) [
      | inl q ↦ ground (arith, q, h)
      | inr q ↦
          (cap_output note t, ground (arith, e, q, h), cap_output_bound note t, ground (arith, q))
    ]

read_range-fits :
    (lines : Text) (found : ObjectMeta × Text) (r : Option Text)
    → read_range lines found ≡ ok r
    → (start end : ℕ) × (t : Text) × (parse_line_range lines (count_lines found.1)
        ≡ ok (start, end))
      × (r ≡ some t)
      × (length t ≤ 10043)
      × (end + 1 - start ≤ max_lines)
unfolding read_range
read_range-fits lines (meta, content) r h =
    let ((start, end), p, k) =
      >>=-ok (parse_line_range lines (count_lines content)) (λ range. show_range content range) r
        h in
    let (one, _, _) = parse_line_range-within lines (count_lines content) start end p in
    let (t, a, b, c) = show_range-fits content start end r one k in (start, end, t, p, a, b, c)

-- Where get-text returns a text, the range it was asked for, read against the lines of the object it
-- was asked for, has no more than 1000 lines, its loop has met no line
-- number out of range, and the text has at most 10000 bytes and the 43 of the note on a truncation.
pub get_text-fits :
    (objects : Option Store) (object lines : Text) (r : Option Text)
    → get_text objects object lines ≡ ok r
    → (found : ObjectMeta × Text) × (start end : ℕ) × (t : Text) × (resolve_text_object objects
          object
        ≡ ok found)
      × (parse_line_range lines (count_lines found.1) ≡ ok (start, end))
      × (r ≡ some t)
      × (length t ≤ 10043)
      × (end + 1 - start ≤ max_lines)
unfolding get_text
get_text-fits objects object lines r h = elim (Bool-cases (length lines == 0)) [
  | inl e ↦ ground (arith, e, h)
  | inr e ↦
      let chain : ((resolve_text_object objects object >>= λ found. read_range lines found)
          ≡ ok r) =
        ground (arith, e, h) in
      let (found, q, k) =
        >>=-ok (resolve_text_object objects object) (λ found. read_range lines found) r chain in
      let (start, end, t, p, a, b, c) = read_range-fits lines found r k in
      (found, start, end, t, q, p, a, b, c)
]
