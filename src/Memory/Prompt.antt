-- ===== src/Memory/Prompt.antt =====
-- FormatForPrompt and what it uses (app/internal/memory/session_memory.go, global_memory.go).
-- `date` is time.Time.Format with the layout 2006-01-02, `tag` the trust tag of the store, and
-- `what` the words of the elision line.
pub mod Live
use shell_agent_v.Base.{
  ℕ, zero, suc, ◌+◌, ◌-◌, ◌/◌, ◌%◌, Bool, true, false, not, ◌&&◌, ◌||◌, List, [], ◌∷◌, ◌++◌, length,
  ltb, leb, ◌==◌, if◌then◌else◌,
}
use shell_agent_v.Text.{Text, codes, ◌=ᵗ◌, runes, encode, trim_space, concat}
use shell_agent_v.Memory.Lifecycle.{Lifecycle, dormant, archived}
use shell_agent_v.Memory.Store.{Entry, Store}

unfoldable pub trust_tag : Bool → Text
trust_tag user_stated = if user_stated then codes "[user-stated]" else codes "[derived]"

unfoldable pub session_trust_tag : Text → Text
unfolding trust_tag ◌=ᵗ◌
session_trust_tag source = trust_tag (source =ᵗ codes "user_turn")

unfoldable pub global_trust_tag : Text → Text
unfolding trust_tag ◌=ᵗ◌
global_trust_tag source = trust_tag (
    source =ᵗ codes "user_turn"
    || source =ᵗ codes "manual"
    || source =ᵗ codes "promoted_from_session_memory"
    || source =ᵗ codes "promoted_from_finding")

-- The loop over the runes, with the number of runes that have been kept. The cap is tested only
-- after a rune that is kept as it is.
unfoldable pub sanitize_runes : ℕ → ℕ → List ℕ → List ℕ
sanitize_runes max_len kept [] = []
sanitize_runes max_len kept (r ∷ rs) =
    let is_break = r == 0x0A || r == 0x0D || r == 0x09 in
    let is_skipped = not is_break && (ltb r 0x20 || r == 0x7F) in
    let rest = sanitize_runes max_len (if is_skipped then kept else suc kept) rs in
    if is_break
    then 0x20 ∷ rest
    else if is_skipped
    then rest
    else r ∷ (if leb max_len (suc kept) then [] else rest)

unfoldable pub sanitize_memory_text : Text → ℕ → Text
unfolding sanitize_runes runes encode trim_space
sanitize_memory_text s max_len = encode (trim_space (sanitize_runes max_len 0 (runes s)))

-- The digits of a number, the fuel being above their count.
unfoldable pub decimal_from : ℕ → ℕ → Text
decimal_from zero n = []
decimal_from (suc fuel) n =
    (if ltb n 10 then [] else decimal_from fuel (n / 10)) ++ (0x30 + n % 10) ∷ []

unfoldable pub decimal : ℕ → Text
unfolding decimal_from
decimal n = decimal_from (suc n) n

abbrev pub format_budget : ℕ
format_budget = 16384

abbrev pub is_dead : Lifecycle → Bool
is_dead dormant = true
is_dead archived = true
is_dead _ = false

-- The loop from the last line to the first, as recursion from the first: the lines after it come
-- first. It stops at a line that does not fit; the flag says that it has.
unfoldable pub fit_lines : ℕ → List Text → List Text × ℕ × Bool
fit_lines budget [] = ([], 0, false)
fit_lines budget (l ∷ ls) =
    let (included, used, stopped) = fit_lines budget ls in
    if stopped || ltb budget (used + length l)
    then (included, used, true)
    else (l ∷ included, used + length l, false)

unfoldable pub join_lines : Text → List Text → Text
unfolding fit_lines concat decimal
join_lines what [] = []
join_lines what (l ∷ ls) =
    let included = (fit_lines format_budget (l ∷ ls)).0 in
    let elided = length (l ∷ ls) - length included in
    (if ltb 0 elided
      then codes "("
        ++ (decimal elided ++ (codes " earlier " ++ (what ++ codes " elided to fit budget)\n")))
      else [])
    ++ concat included

module _ {F X : Type 0} (date : ℕ → Text) (tag : Text → Text) (what : Text) where
  unfoldable pub render_entry : Entry F X → Text
  unfolding sanitize_memory_text ◌=ᵗ◌
  render_entry e =
      let fact = sanitize_memory_text e.fact 300 in
      let native = sanitize_memory_text e.native_fact 300 in
      let category = sanitize_memory_text e.category 30 in
      codes "- "
      ++ (tag e.source
          ++ (codes " ["
              ++ (category
                  ++ (codes "] "
                      ++ (fact
                          ++ ((if length native == 0 || native =ᵗ fact
                                then []
                                else codes " (" ++ (native ++ codes ")"))
                              ++ ((if e.created_at == 0
                                    then []
                                    else codes " (learned " ++ (date e.created_at ++ codes ")"))
                                  ++ codes "\n")))))))

  unfoldable pub render_entries : List (Entry F X) → List Text
  unfolding render_entry
  render_entries [] = []
  render_entries (e ∷ es) =
      let rest = render_entries es in if is_dead e.state then rest else render_entry e ∷ rest

  unfoldable pub format_for_prompt : Store F X → Text
  unfolding render_entries join_lines
  format_for_prompt s = join_lines what (render_entries s.entries)
