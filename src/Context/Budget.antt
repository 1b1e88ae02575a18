-- ===== src/Context/Budget.antt =====
-- Bounds of the context builder's parts (app/internal/contextbuild/render.go, cache.go).
use shell_agent_v.Base.{
  ℕ, ◌+◌, ◌-◌, ◌*◌, ◌≤◌, ◌<◌, ◌≡◌, true, none, some, List, [], ◌∷◌, ◌++◌, length, take, leb, arith,
  inl, inr, Bool-cases, Option-cases, length-append, length-take,
}
use shell_agent_v.Text.{Text, ◌=ᵗ◌}
use shell_agent_v.Text.Laws.{text_eq_refl, text_eq→eq}
use shell_agent_v.Context.Render.{cut, truncation_note, estimate_tokens, truncate_to_tokens}
use shell_agent_v.Context.Cache.{
  SummaryEntry, SummaryCache, kind_content_v2, get, get_entry, put, replace_entry, trim, stamped,
  limit_of, same_slot,
}

length-within_estimate :
    (text : Text) (n : ℕ) → leb (estimate_tokens text) n ≡ true → length text ≤ n * 4 + 3
unfolding estimate_tokens
length-within_estimate text n h = ground arith

length-cut : (text suffix : Text) (n : ℕ) → length (cut text suffix n) ≤ n
unfolding cut
length-cut text suffix n = elim (Bool-cases (leb n (length suffix))) [
  | inl h ↦ rw h (omega (arith, length-take n text))
  | inr h ↦ rw h (
      ground (
        arith,
        h,
        length-append (take (n - length suffix) text) suffix,
        length-take (n - length suffix) text,
      ))
]

-- A truncated text has at most four bytes for each token that is allowed, and three more.
pub truncate_to_tokens_bound :
    (text : Text) (max_tokens : ℕ)
    → 0 < max_tokens
    → length (truncate_to_tokens text max_tokens) ≤ max_tokens * 4 + 3
unfolding truncate_to_tokens
truncate_to_tokens_bound text n h =
    ground (
      arith,
      length-within_estimate text n,
      length-cut text (truncation_note (length text)) (n * 4),
    )

get_entry-replaced :
    (e : SummaryEntry) (es es' : List SummaryEntry)
    → (e.kind =ᵗ kind_content_v2) ≡ true
    → replace_entry e es ≡ some es'
    → get_entry e.range_key es' ≡ some e
unfolding replace_entry get_entry
get_entry-replaced e [] es' k h = ground (arith, h)
get_entry-replaced e (f ∷ es) es' k h = elim (Bool-cases (same_slot f e)) [
  | inl q ↦ ground (arith, q, h, k, text_eq_refl e.range_key)
  | inr q ↦ elim (Option-cases (replace_entry e es)) [
    | inl n ↦ ground (arith, q, n, h)
    | inr (xs, x) ↦ ground (
      arith,
      q,
      x,
      h,
      get_entry-replaced e es xs k x,
      text_eq→eq f.kind kind_content_v2,
      text_eq→eq e.kind kind_content_v2 k,
    )
  ]
]

get_entry-appended :
    (e : SummaryEntry) (es : List SummaryEntry)
    → (e.kind =ᵗ kind_content_v2) ≡ true
    → replace_entry e es ≡ none
    → get_entry e.range_key (es ++ e ∷ []) ≡ some e
unfolding replace_entry get_entry
get_entry-appended e [] k h = ground (arith, k, text_eq_refl e.range_key)
get_entry-appended e (f ∷ es) k h = elim (Bool-cases (same_slot f e)) [
  | inl q ↦ ground (arith, q, h)
  | inr q ↦ elim (Option-cases (replace_entry e es)) [
    | inl n ↦ ground (
      arith,
      q,
      n,
      get_entry-appended e es k n,
      text_eq→eq f.kind kind_content_v2,
      text_eq→eq e.kind kind_content_v2 k,
      text_eq_refl kind_content_v2,
    )
    | inr (xs, x) ↦ ground (arith, q, x, h)
  ]
]

trim-fits : (limit : ℕ) (es : List SummaryEntry) → length es ≤ limit → trim limit es ≡ es
unfolding trim
trim-fits limit es h = ground (arith, h)

-- A summary that is put into a cache with room, under the kind that Build writes, is what Get returns
-- for its key, whether the key was there before or not.
pub get-put :
    (now : ℕ) (e : SummaryEntry) (c : SummaryCache)
    → (e.kind =ᵗ kind_content_v2) ≡ true
    → length c.entries < limit_of c
    → get e.range_key (some (put now e c)) ≡ some (stamped now e)
unfolding get put
get-put now e c k h =
    let k' : ((stamped now e).kind =ᵗ kind_content_v2) ≡ true =
      ground (arith, k, text_eq_refl kind_content_v2) in
    elim (Option-cases (replace_entry (stamped now e) c.entries)) [
      | inl n ↦
          rw
            (
              put,
              n,
              trim-fits (limit_of c) (c.entries ++ stamped now e ∷ [])
                  (omega (arith, h, length-append c.entries (stamped now e ∷ []))),
            )
            (get_entry-appended (stamped now e) c.entries k' n)
      | inr (es, q) ↦ rw (put, q) (get_entry-replaced (stamped now e) c.entries es k' q)
    ]
