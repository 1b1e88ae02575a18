-- ===== src/Extraction/Apply.antt =====
-- What the lines of the reply do to the two memory stores (the loop of extractMemories in
-- app/internal/agent/agent_extract.go). `p` holds the floating point numbers and strings.ToLower,
-- `upper` is strings.ToUpper. The reply is taken to have arrived; saving the stores, logging and
-- notifying are left out.
use shell_agent_v.Base.{
  ℕ, suc, ◌+◌, ◌-◌, Bool, false, not, ◌&&◌, ◌||◌, Option, none, some, List, [], ◌∷◌, length, drop,
  get_elem?, leb, ◌==◌, if◌then◌else◌,
}
use shell_agent_v.Text.{Text, codes, ◌=ᵗ◌, member, has_prefix}
use shell_agent_v.Session.{Record}
use shell_agent_v.Memory.Floats.{Platform, nought}
use shell_agent_v.Memory.Lifecycle.{other}
use shell_agent_v.Memory.Store.{Entry, Store, add, touch, default_max_session_memory}
use shell_agent_v.Memory.Edit.{default_max_global_memory, is_global_category}
use shell_agent_v.Chunker.{split_lines}
use shell_agent_v.TextTools.{trimmed}
use shell_agent_v.Extraction.{
  Indexed, Candidate, parse_extraction_line, parse_turn_token, is_self_referential, turns,
  has_tool_neighbor, hot_window, user_turn_count,
}
use shell_agent_v.Extraction.Attribution.{match_fact_to_user_turn}

-- The stores, the second of which may be missing, and the counters of the loop.
pub record Memories (F : Type 0) : Type 0 where
  pub global : Store F Unit
  pub session : Option (Store F ℕ)
  pub added_to_pinned : ℕ
  pub added_to_session : ℕ
  pub touched : ℕ

-- What the loop reads: the window, the number of user turns, the private flag of the session.
pub record Round : Type 0 where
  pub hot : List Indexed
  pub turn : ℕ
  pub is_private : Bool
  pub now : ℕ

unfoldable pub is_extraction_category : Text → Bool
unfolding member
is_extraction_category c =
    member c (codes "preference" ∷ codes "decision" ∷ codes "fact" ∷ codes "context" ∷ [])

-- Where a fact comes from: the role, empty where it is not known, and the index of the record.
abbrev pub noted_origin : List Indexed → Option ℕ → Text × ℕ
noted_origin hot none = ([], 0)
noted_origin hot (some n) = elim (get_elem? (turns hot) (n - 1)) [
  | none ↦ ([], 0)
  | some r ↦ (r.1.role, r.0)
]

unfoldable pub origin : (Text → Text) → Candidate → List Indexed → Text × ℕ
unfolding match_fact_to_user_turn parse_turn_token turns
origin lower c hot = elim (match_fact_to_user_turn lower c.fact c.native hot) [
  | some idx ↦ (codes "user", idx)
  | none ↦ noted_origin hot (parse_turn_token c.turn_token)
]

unfoldable pub source_of : Text → Text
unfolding ◌=ᵗ◌
source_of role =
    if role =ᵗ codes "user"
    then codes "user_turn"
    else if role =ᵗ codes "assistant"
    then codes "assistant_turn"
    else []

module _ {F : Type 0} (p : Platform F) where
  -- The entry that Add is given: the fields that are not named have Go's zero values.
  unfoldable pub new_entry : {X : Type 0} → X → Round → Text → Candidate → Entry F X
  unfolding source_of has_tool_neighbor
  new_entry x round role c = record {
    fact = c.fact;
    native_fact = c.native;
    category = c.category;
    source_time = 0;
    created_at = 0;
    source_turn_index = x;
    source = source_of role;
    tool_originated = has_tool_neighbor round.hot;
    relevance = nought p;
    created_turn = round.turn;
    last_touched_at = 0;
    last_touched_turn = 0;
    touch_count = 0;
    state = other [];
  }

  -- Touch on the store of the session, where there is one: the store and the count.
  unfoldable pub touch_session : Round → Text → Option (Store F ℕ) → Option (Store F ℕ) × ℕ
  unfolding touch ◌=ᵗ◌
  touch_session round fact none = (none, 0)
  touch_session round fact (some s) =
      let r = touch p round.now (some (λ existing. existing =ᵗ fact)) round.turn s in
      (some r.1, r.0)

  unfoldable pub touch_fact : Round → Text → Memories F → Memories F
  unfolding touch touch_session ◌=ᵗ◌
  touch_fact round fact m =
      let r = touch p round.now (some (λ existing. existing =ᵗ fact)) round.turn m.global in
      let after = touch_session round fact m.session in
      record m { global = r.1; session = after.0; touched = m.touched + r.0 + after.1 }

  unfoldable pub add_global : Round → Text → Candidate → Memories F → Memories F
  unfolding add new_entry
  add_global round role c m =
      let (added, global) =
        add p default_max_global_memory round.now (new_entry tt round role c) m.global in
      record m {
        global = global;
        added_to_pinned = if added then suc m.added_to_pinned else m.added_to_pinned;
      }

  -- Add on the store of the session, where there is one, and whether it has added.
  unfoldable pub add_to_session :
      Round → Text → ℕ → Candidate → Option (Store F ℕ) → Bool × Option (Store F ℕ)
  unfolding add new_entry
  add_to_session round role idx c none = (false, none)
  add_to_session round role idx c (some s) =
      let r = add p default_max_session_memory round.now (new_entry idx round role c) s in
      (r.0, some r.1)

  unfoldable pub add_session : Round → Text → ℕ → Candidate → Memories F → Memories F
  unfolding add_to_session
  add_session round role idx c m =
      let (added, session) = add_to_session round role idx c m.session in
      record m {
        session = session;
        added_to_session = if added then suc m.added_to_session else m.added_to_session;
      }

  unfoldable pub route : Round → Candidate → Memories F → Memories F
  unfolding origin add_global add_session is_global_category
  route round c m =
      let (role, idx) = origin p.lower c round.hot in
      if is_global_category c.category
      then (if round.is_private then m else add_global round role c m)
      else add_session round role idx c m

  -- The two filters before the routing.
  unfoldable pub admit : Round → Option Candidate → Memories F → Memories F
  unfolding is_extraction_category is_self_referential route
  admit round none m = m
  admit round (some c) m =
      if not (is_extraction_category c.category)
      then m
      else if is_self_referential p.lower c.fact
      then m
      else route round c m

  unfoldable pub apply_line : Round → Text → Memories F → Memories F
  unfolding has_prefix touch_fact admit parse_extraction_line
  apply_line round line m =
      let fact = trimmed (drop 8 line) in
      if length line == 0
      then m
      else if has_prefix line (codes "touched|")
      then (if length fact == 0 then m else touch_fact round fact m)
      else admit round (parse_extraction_line line) m

  unfoldable pub apply_lines : Round → List Text → Memories F → Memories F
  unfolding apply_line
  apply_lines round [] m = m
  apply_lines round (l ∷ ls) m = apply_lines round ls (apply_line round (trimmed l) m)

  -- extractMemories from the reply on.
  unfoldable pub apply_reply :
      (Text → Text) → ℕ → List Record → Bool → Text → Memories F → Memories F
  unfolding apply_lines split_lines hot_window user_turn_count ◌=ᵗ◌
  apply_reply upper now records is_private reply m =
      let text = trimmed reply in
      let (hot, non_tool) = hot_window records in
      let round : Round = record {
        hot = hot;
        turn = user_turn_count records;
        is_private = is_private;
        now = now;
      } in
      if leb 2 non_tool && not (length text == 0 || upper text =ᵗ codes "NONE")
      then apply_lines round (split_lines text) m
      else m
