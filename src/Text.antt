-- ===== src/Text.antt =====
-- Go strings as lists of bytes, and the functions of package strings that the program calls.
-- A `for range` loop and `[]rune` see the runes of `segments`: each rune with the bytes that spell
-- it, an invalid byte being U+FFFD.
pub mod Laws
use Prim.Native.Char.{code}
use Prim.Native.String.{String}
use shell_agent_v.Base.{
  ℕ, zero, suc, ◌+◌, ◌-◌, ◌*◌, ◌/◌, ◌%◌, Bool, true, false, not, ◌&&◌, ◌||◌, List, [], ◌∷◌, ◌++◌,
  map, ltb, leb, ◌==◌, if◌then◌else◌,
}

abbrev pub Text : Type 0
Text = List ℕ

-- The code points of a literal: its bytes, since every literal here is ASCII.
abbrev pub codes : String → Text
codes String.[] = []
codes (String.◌∷◌ c s) = code c ∷ codes s

infix 50 ◌=ᵗ◌
unfoldable pub ◌=ᵗ◌ : Text → Text → Bool
[] =ᵗ [] = true
[] =ᵗ (d ∷ t) = false
(c ∷ s) =ᵗ [] = false
(c ∷ s) =ᵗ (d ∷ t) = c == d && s =ᵗ t

unfoldable pub member : Text → List Text → Bool
unfolding ◌=ᵗ◌
member t [] = false
member t (s ∷ l) = s =ᵗ t || member t l

unfoldable pub has_prefix : Text → Text → Bool
has_prefix s [] = true
has_prefix [] (c ∷ p) = false
has_prefix (d ∷ s) (c ∷ p) = c == d && has_prefix s p

unfoldable pub contains : Text → Text → Bool
unfolding has_prefix
contains [] p = has_prefix [] p
contains (c ∷ s) p = has_prefix (c ∷ s) p || contains s p

-- strings.ReplaceAll of one byte.
unfoldable pub replace_byte : ℕ → Text → Text → Text
replace_byte b new [] = []
replace_byte b new (c ∷ s) = (if c == b then new else c ∷ []) ++ replace_byte b new s

unfoldable pub concat : List Text → Text
concat [] = []
concat (p ∷ ps) = p ++ concat ps

-- The bytes 0x80 to 0xBF continue a rune.
unfoldable pub is_continuation : ℕ → Bool
is_continuation b = leb 0x80 b && ltb b 0xC0

-- The rune at the head of a text and its width in bytes.
unfoldable pub first_rune : ℕ → Text → ℕ × ℕ
unfolding is_continuation
first_rune a (b ∷ c ∷ d ∷ _) =
    if ltb a 0x80
    then (a, 1)
    else if leb 0xC2 a && ltb a 0xE0 && is_continuation b
    then ((a - 0xC0) * 64 + (b - 0x80), 2)
    else if leb 0xE0 a
        && ltb a 0xF0
        && is_continuation b
        && is_continuation c
        && leb (if a == 0xE0 then 0xA0 else 0x80) b
        && leb b (if a == 0xED then 0x9F else 0xBF)
    then (((a - 0xE0) * 64 + (b - 0x80)) * 64 + (c - 0x80), 3)
    else if leb 0xF0 a
        && leb a 0xF4
        && is_continuation b
        && is_continuation c
        && is_continuation d
        && leb (if a == 0xF0 then 0x90 else 0x80) b
        && leb b (if a == 0xF4 then 0x8F else 0xBF)
    then ((((a - 0xF0) * 64 + (b - 0x80)) * 64 + (c - 0x80)) * 64 + (d - 0x80), 4)
    else (0xFFFD, 1)
first_rune a (b ∷ c ∷ []) =
    if ltb a 0x80
    then (a, 1)
    else if leb 0xC2 a && ltb a 0xE0 && is_continuation b
    then ((a - 0xC0) * 64 + (b - 0x80), 2)
    else if leb 0xE0 a
        && ltb a 0xF0
        && is_continuation b
        && is_continuation c
        && leb (if a == 0xE0 then 0xA0 else 0x80) b
        && leb b (if a == 0xED then 0x9F else 0xBF)
    then (((a - 0xE0) * 64 + (b - 0x80)) * 64 + (c - 0x80), 3)
    else (0xFFFD, 1)
first_rune a (b ∷ []) =
    if ltb a 0x80
    then (a, 1)
    else if leb 0xC2 a && ltb a 0xE0 && is_continuation b
    then ((a - 0xC0) * 64 + (b - 0x80), 2)
    else (0xFFFD, 1)
first_rune a [] = if ltb a 0x80 then (a, 1) else (0xFFFD, 1)

-- The first argument counts the bytes that still belong to the rune before.
unfoldable pub runes_from : ℕ → Text → List ℕ
unfolding first_rune
runes_from skip [] = []
runes_from zero (a ∷ s) = (first_rune a s).0 ∷ runes_from ((first_rune a s).1 - 1) s
runes_from (suc skip) (a ∷ s) = runes_from skip s

unfoldable pub runes : Text → List ℕ
unfolding runes_from
runes s = runes_from 0 s

-- string(r) for a rune.
unfoldable pub encode_rune : ℕ → Text
encode_rune r =
    if ltb r 0x80
    then r ∷ []
    else if ltb r 0x800
    then (0xC0 + r / 64) ∷ (0x80 + r % 64) ∷ []
    else if ltb r 0x10000
    then (0xE0 + r / 4096) ∷ (0x80 + r / 64 % 64) ∷ (0x80 + r % 64) ∷ []
    else (0xF0 + r / 262144) ∷ (0x80 + r / 4096 % 64) ∷ (0x80 + r / 64 % 64) ∷ (0x80 + r % 64) ∷ []

unfoldable pub encode : List ℕ → Text
unfolding encode_rune
encode [] = []
encode (r ∷ rs) = encode_rune r ++ encode rs

-- The bytes of a literal.
abbrev pub utf8 : String → Text
unfolding encode_rune
utf8 String.[] = []
utf8 (String.◌∷◌ c s) = encode_rune (code c) ++ utf8 s

-- unicode.IsSpace
unfoldable pub is_space : ℕ → Bool
is_space r =
    leb 0x09 r && leb r 0x0D
    || r == 0x20
    || r == 0x85
    || r == 0xA0
    || r == 0x1680
    || leb 0x2000 r && leb r 0x200A
    || r == 0x2028
    || r == 0x2029
    || r == 0x202F
    || r == 0x205F
    || r == 0x3000

unfoldable pub trim_left : List ℕ → List ℕ
unfolding is_space
trim_left [] = []
trim_left (r ∷ rs) = if is_space r then trim_left rs else r ∷ rs

-- A space is dropped where nothing but spaces follows it.
unfoldable pub trim_right : List ℕ → List ℕ
unfolding is_space
trim_right [] = []
trim_right (r ∷ rs) = elim (trim_right rs) [
  | [] ↦ if is_space r then [] else r ∷ []
  | q ∷ qs ↦ r ∷ q ∷ qs
]

-- strings.TrimSpace, on the runes of a text.
unfoldable pub trim_space : List ℕ → List ℕ
unfolding trim_left trim_right
trim_space rs = trim_right (trim_left rs)

-- len(strings.Fields(s)): the runs of runes that are no spaces. The flag says that one is open.
unfoldable pub count_fields : Bool → List ℕ → ℕ
unfolding is_space
count_fields open_run [] = 0
count_fields open_run (r ∷ rs) =
    (if not (is_space r) && not open_run then 1 else 0) + count_fields (not (is_space r)) rs

-- strings.Fields(s)[0] of a text that does not begin with a space.
unfoldable pub first_field : List ℕ → List ℕ
unfolding is_space
first_field [] = []
first_field (r ∷ rs) = if is_space r then [] else r ∷ first_field rs
