-- ===== src/Chunker/Cover.antt =====
-- What the chunks of a document hold (app/internal/analysis/textchunker.go).
use shell_agent_v.Base.{
  ℕ, ◌+◌, ◌≤◌, ◌≡◌, refl, ap, Bool, true, false, not, ◌&&◌, ◌||◌, some, List, [], ◌∷◌, ◌++◌, length,
  take, drop, ltb, ◌==◌, max, arith, inl, inr, Bool-cases, take-append-drop,
}
use shell_agent_v.Text.{Text, member}
use shell_agent_v.Memory.Floats.{Platform}
use shell_agent_v.Context.Render.{estimate_tokens}
use shell_agent_v.Chunker.{
  chunk_lines, carried, choose_close_index, sum_tokens, overlap_tail, overlap_tokens,
}

-- Whether a line is in a chunk.
pub in_chunks : Text → List (List Text) → Bool
in_chunks l [] = false
in_chunks l (c ∷ cs) = member l c || in_chunks l cs

member-append : (l : Text) (xs ys : List Text) → member l (xs ++ ys) ≡ (member l xs || member l ys)
unfolding member
member-append l [] ys = refl
member-append l (x ∷ xs) ys = ground (arith, member-append l xs ys)

in_chunks-append :
    (l : Text) (cs ds : List (List Text))
    → in_chunks l (cs ++ ds) ≡ (in_chunks l cs || in_chunks l ds)
unfolding in_chunks
in_chunks-append l [] ds = refl
in_chunks-append l (c ∷ cs) ds = ground (arith, in_chunks-append l cs ds)

module _ {F : Type 0} (p : Platform F) (ratio : F) (target max_chunks : ℕ) where
  -- A line of the current chunk is in what is closed or in what is carried over.
  member-carried :
      (l : Text) (curr : List Text)
      → member l curr ≡ true
      → (member l (take (choose_close_index p ratio target max_chunks curr) curr)
          || member l (carried p ratio target max_chunks curr))
        ≡ true
  unfolding carried
  member-carried l curr h =
      let at = choose_close_index p ratio target max_chunks curr in
      let tail = (overlap_tail (overlap_tokens p ratio target max_chunks) (take at curr)).0 in
      ground (
        arith,
        h,
        ap (member l) (take-append-drop at curr),
        member-append l (take at curr) (drop at curr),
        member-append l (drop at curr) tail,
      )

  -- Where the loop ends without an error, every line of its chunks, of the current chunk and of the
  -- lines that are left is in a chunk.
  chunk_lines_cover :
      (chunks : List (List Text)) (curr : List Text) (tokens : ℕ) (lines : List Text)
      (out : List (List Text)) (l : Text)
      → chunk_lines p ratio target max_chunks chunks curr tokens lines ≡ some out
      → (in_chunks l chunks || member l curr || member l lines) ≡ true
      → in_chunks l out ≡ true
  unfolding chunk_lines member in_chunks
  chunk_lines_cover chunks [] tokens [] out l e h = ground (arith, e, h)
  chunk_lines_cover chunks (c ∷ curr) tokens [] out l e h =
      ground (arith, e, h, in_chunks-append l chunks ((c ∷ curr) ∷ []))
  chunk_lines_cover chunks curr tokens (line ∷ lines) out l e h =
      let closed = take (choose_close_index p ratio target max_chunks curr) curr in
      let kept = carried p ratio target max_chunks curr in
      elim (Bool-cases (ltb target (tokens + estimate_tokens line) && not (length curr == 0))) [
        | inl q ↦
            chunk_lines_cover (chunks ++ closed ∷ []) (kept ++ line ∷ [])
              (sum_tokens kept + estimate_tokens line) lines out l (ground (arith, q, e))
              (ground (
                arith,
                h,
                in_chunks-append l chunks (closed ∷ []),
                member-append l kept (line ∷ []),
                member-carried l curr,
              ))
        | inr q ↦
            chunk_lines_cover chunks (curr ++ line ∷ []) (tokens + estimate_tokens line) lines out l
              (ground (arith, q, e)) (ground (arith, h, member-append l curr (line ∷ [])))
      ]

  chunk_lines_bound :
      (chunks : List (List Text)) (curr : List Text) (tokens : ℕ) (lines : List Text)
      (out : List (List Text))
      → chunk_lines p ratio target max_chunks chunks curr tokens lines ≡ some out
      → length out ≤ max max_chunks (length chunks)
  unfolding chunk_lines
  chunk_lines_bound chunks [] tokens [] out e = ground (arith, e)
  chunk_lines_bound chunks (c ∷ curr) tokens [] out e = ground (arith, e)
  chunk_lines_bound chunks curr tokens (line ∷ lines) out e =
      let closed = take (choose_close_index p ratio target max_chunks curr) curr in
      let kept = carried p ratio target max_chunks curr in
      elim (Bool-cases (ltb target (tokens + estimate_tokens line) && not (length curr == 0))) [
        | inl q ↦ ground (
          arith,
          q,
          e,
          chunk_lines_bound (chunks ++ closed ∷ []) (kept ++ line ∷ [])
              (sum_tokens kept + estimate_tokens line) lines out,
        )
        | inr q ↦
            chunk_lines_bound chunks (curr ++ line ∷ []) (tokens + estimate_tokens line) lines out
              (ground (arith, q, e))
      ]

  -- Where the splitting of a list of lines succeeds, every line is in a chunk, and there are no more
  -- chunks than the cap.
  pub chunk_lines_lem :
      (lines : List Text) (out : List (List Text)) (l : Text)
      → chunk_lines p ratio target max_chunks [] [] 0 lines ≡ some out
      → member l lines ≡ true
      → (in_chunks l out ≡ true) × (length out ≤ max_chunks)
  chunk_lines_lem lines out l e h = (
    chunk_lines_cover [] [] 0 lines out l e (ground (arith, h)),
    omega (arith, chunk_lines_bound [] [] 0 lines out e),
  )
