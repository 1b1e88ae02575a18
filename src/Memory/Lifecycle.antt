-- ===== src/Memory/Lifecycle.antt =====
-- The lifecycle of memory entries and the similarity of texts (app/internal/memory/lifecycle.go).
pub mod Match
use shell_agent_v.Base.{
  ℕ, zero, suc, ◌+◌, ◌-◌, Bool, true, false, not, ◌&&◌, ◌||◌, Option, none, some, List, [], ◌∷◌,
  ◌++◌, length, ltb, ◌==◌, if◌then◌else◌,
}
use shell_agent_v.Text.{Text, member, runes, encode_rune, trim_space}
use shell_agent_v.Memory.Floats.{Platform, nought, one}

-- The strings of the State field; `other` is any string but the four, among them the empty one.
pub data Lifecycle : Type 0 where
  fresh active dormant archived : Lifecycle
  other : Text → Lifecycle

-- A negative FreshTurns counts as 0, which the code treats alike.
pub record Thresholds (F : Type 0) : Type 0 where
  pub decay_rate : F
  pub fresh_turns : ℕ
  pub active_threshold : F
  pub archive_threshold : F
  pub touch_jaccard_threshold : F
  pub consolidation_jaccard_threshold : F

abbrev pub is_nil {ℓ} : {A : Type ℓ} → List A → Bool
is_nil [] = true
is_nil (x ∷ xs) = false

-- A token joins the set unless it is empty or in it.
unfoldable pub add_token : Text → List Text → List Text
unfolding member
add_token t set = if is_nil t || member t set then set else set ++ t ∷ []

unfoldable pub count_in : List Text → List Text → ℕ
unfolding member
count_in [] large = 0
count_in (k ∷ small) large = (if member k large then 1 else 0) + count_in small large

unfoldable pub intersection_size : List Text → List Text → ℕ
unfolding count_in
intersection_size a b = if ltb (length b) (length a) then count_in b a else count_in a b

module _ {F : Type 0} (p : Platform F) where
  unfoldable pub default_thresholds : Thresholds F
  default_thresholds = record {
    decay_rate = p.ratio 93 100;
    fresh_turns = 3;
    active_threshold = p.ratio 4 10;
    archive_threshold = p.ratio 1 10;
    touch_jaccard_threshold = p.ratio 3 10;
    consolidation_jaccard_threshold = p.ratio 5 10;
  }

  -- The default where a number is not positive.
  abbrev pub positive_or : F → F → F
  positive_or d f = if p.le f (nought p) then d else f

  unfoldable pub resolved : Thresholds F → Thresholds F
  unfolding default_thresholds
  resolved t = record {
    decay_rate = positive_or default_thresholds.decay_rate t.decay_rate;
    fresh_turns = if t.fresh_turns == 0 then default_thresholds.fresh_turns else t.fresh_turns;
    active_threshold = positive_or default_thresholds.active_threshold t.active_threshold;
    archive_threshold = positive_or default_thresholds.archive_threshold t.archive_threshold;
    touch_jaccard_threshold =
        positive_or default_thresholds.touch_jaccard_threshold t.touch_jaccard_threshold;
    consolidation_jaccard_threshold =
        positive_or default_thresholds.consolidation_jaccard_threshold
          t.consolidation_jaccard_threshold;
  }

  unfoldable pub decayed_relevance : F → F → F
  decayed_relevance r rate =
      let rate' = if p.le rate (nought p) || p.lt (one p) rate then one p else rate in
      let out = p.mul r rate' in
      if p.le r (nought p)
      then nought p
      else if p.lt out (nought p)
      then nought p
      else if p.lt (one p) out
      then one p
      else out

  -- `current - created < fresh_turns` on Go's integers.
  unfoldable pub derive_state : F → ℕ → ℕ → Thresholds F → Lifecycle
  unfolding resolved
  derive_state r created_turn current_turn t =
      if ltb current_turn (created_turn + (resolved t).fresh_turns)
      then fresh
      else if p.le r (resolved t).archive_threshold
      then archived
      else if p.lt r (resolved t).active_threshold
      then dormant
      else active

  -- The loop over the runes: the token being built, and the set so far.
  unfoldable pub tokens_from : Text → List Text → List ℕ → List Text
  unfolding add_token
  tokens_from token set [] = add_token token set
  tokens_from token set (r ∷ rs) =
      tokens_from (if p.is_word r then token ++ encode_rune r else [])
        (if p.is_word r then set else add_token token set) rs

  -- A set is a list without repetitions.
  unfoldable pub token_set : Text → List Text
  unfolding tokens_from runes
  token_set s = if is_nil s then [] else tokens_from [] [] (runes (p.lower s))

  unfoldable pub jaccard_score : List Text → List Text → F
  unfolding intersection_size
  jaccard_score a b =
      let inter = intersection_size a b in
      let union = length a + length b - inter in
      if is_nil a && is_nil b
      then nought p
      else if union == 0
      then nought p
      else p.ratio inter union

  -- The loop: the facts that are left, their first index, and the best index and score so far.
  unfoldable pub best_match : List Text → List Text → ℕ → Option ℕ → F → Option ℕ
  unfolding jaccard_score token_set
  best_match new_set [] i best score = best
  best_match new_set (f ∷ facts) i best score =
      let s = jaccard_score new_set (token_set f) in
      best_match new_set facts (suc i) (if p.le score s then some i else best)
        (if p.le score s then s else score)

  unfoldable pub consolidation_match : List Text → Text → F → Option ℕ
  unfolding best_match trim_space runes
  consolidation_match facts new_fact threshold =
      if is_nil (trim_space (runes new_fact)) || is_nil facts
      then none
      else best_match (token_set new_fact) facts 0 none threshold

  unfoldable pub lexical_touch_predicate : Text → F → Text → Bool
  unfolding jaccard_score token_set
  lexical_touch_predicate turn_content threshold fact =
      if is_nil (token_set turn_content) || p.le threshold (nought p)
      then false
      else p.le threshold (jaccard_score (token_set turn_content) (token_set fact))

  -- A set that is not empty and that the content resembles.
  unfoldable pub any_match : List Text → F → List (List Text) → Bool
  unfolding jaccard_score
  any_match content_set threshold [] = false
  any_match content_set threshold (a ∷ sets) =
      not (is_nil a) && p.le threshold (jaccard_score content_set a)
      || any_match content_set threshold sets

  unfoldable pub anchor_record : Text → List (List Text) → F → Bool
  unfolding any_match token_set
  anchor_record content anchors threshold =
      if is_nil content || is_nil anchors || p.le threshold (nought p)
      then false
      else if is_nil (token_set content)
      then false
      else any_match (token_set content) threshold anchors

  unfoldable pub dead_topic_record : Text → List (List Text) → List (List Text) → F → Bool
  unfolding any_match token_set
  dead_topic_record content dead live threshold =
      if is_nil content || is_nil dead || p.le threshold (nought p)
      then false
      else if is_nil (token_set content)
      then false
      else if not (any_match (token_set content) threshold dead)
      then false
      else not (any_match (token_set content) threshold live)
