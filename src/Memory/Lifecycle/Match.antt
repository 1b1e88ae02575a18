-- ===== src/Memory/Lifecycle/Match.antt =====
-- ConsolidationMatch (app/internal/memory/lifecycle.go).
use mathlib.Core.Path.{subst}
use shell_agent_v.Base.{
  ltb, ◌&&◌, ℕ, zero, suc, ◌+◌, ◌≡◌, ◌⊎◌, refl, true, false, Option, none, some, List, [], ◌∷◌,
  get_elem?, arith, inl, inr, Bool-cases,
}
use shell_agent_v.Text.{Text}
use shell_agent_v.Memory.Floats.{Platform, IsOrdered}
use shell_agent_v.Memory.Lifecycle.{token_set, jaccard_score, best_match, consolidation_match}

module _ {F : Type 0} (p : Platform F) where
  -- The similarity of a new fact to an existing one.
  abbrev pub score_of : List Text → Text → F
  score_of new_set f = jaccard_score p new_set (token_set p f)

  -- Below a score: every fact of the list.
  record AllBelow (new_set facts : List Text) (score : F) : Type 0 where
    at : (j : ℕ) (g : Text) → get_elem? facts j ≡ some g → p.le score (score_of new_set g) ≡ false

  AllBelow-nil : (new_set : List Text) (score : F) → AllBelow new_set [] score
  AllBelow-nil new_set score = record { at = λ j g h. absurd (none_there j g h) }
    where
      none_there : (j : ℕ) (g : Text) → get_elem? {A = Text} [] j ≡ some g → ⊥
      none_there zero g h = cc
      none_there (suc j) g h = cc

  AllBelow-cons :
      (new_set : List Text) (f : Text) (facts : List Text) (score : F)
      → p.le score (score_of new_set f) ≡ false
      → AllBelow new_set facts score
      → AllBelow new_set (f ∷ facts) score
  AllBelow-cons new_set f facts score h a = record { at = below }
    where
      below :
          (j : ℕ) (g : Text)
          → get_elem? (f ∷ facts) j ≡ some g
          → p.le score (score_of new_set g) ≡ false
      below zero g e = ground (arith, e, h)
      below (suc j) g e = a.at j g e

  -- The last fact of the list that none exceeds, at its index, and not below a score.
  record IsLastBest (new_set facts : List Text) (score : F) (k : ℕ) : Type 0 where
    fact : Text
    stands : get_elem? facts k ≡ some fact
    reaches : p.le score (score_of new_set fact) ≡ true
    highest :
        (j : ℕ) (g : Text)
        → get_elem? facts j ≡ some g
        → p.le (score_of new_set g) (score_of new_set fact) ≡ true
    last :
        (j : ℕ) (g : Text)
        → get_elem? facts j ≡ some g
        → (ltb k j && p.le (score_of new_set fact) (score_of new_set g)) ≡ false

  -- The first fact is the best where the rest is below it, and else an index of the rest moves by
  -- one.
  IsLastBest-here :
      (new_set : List Text) (f : Text) (facts : List Text) (score : F)
      → IsOrdered p
      → p.le score (score_of new_set f) ≡ true
      → AllBelow new_set facts (score_of new_set f)
      → IsLastBest new_set (f ∷ facts) score 0
  IsLastBest-here new_set f facts score laws h a = record {
    fact = f;
    stands = refl;
    reaches = h;
    highest = highest_here;
    last = last_here;
  }
    where
      highest_here :
          (j : ℕ) (g : Text)
          → get_elem? (f ∷ facts) j ≡ some g
          → p.le (score_of new_set g) (score_of new_set f) ≡ true
      highest_here zero g e = ground (arith, e, laws.le_refl (score_of new_set f))
      highest_here (suc j) g e = laws.not_le _ _ (a.at j g e)

      last_here :
          (j : ℕ) (g : Text)
          → get_elem? (f ∷ facts) j ≡ some g
          → (ltb 0 j && p.le (score_of new_set f) (score_of new_set g)) ≡ false
      last_here zero g e = ground arith
      last_here (suc j) g e = ground (arith, a.at j g e)

  IsLastBest-there :
      (new_set : List Text) (f : Text) (facts : List Text) (score score' : F) (k : ℕ)
      → IsOrdered p
      → p.le score score' ≡ true
      → p.le (score_of new_set f) score' ≡ true
      → IsLastBest new_set facts score' k
      → IsLastBest new_set (f ∷ facts) score (suc k)
  IsLastBest-there new_set f facts score score' k laws h h' b = record {
    fact = b.fact;
    stands = b.stands;
    reaches = laws.le_trans _ _ _ h b.reaches;
    highest = highest_there;
    last = last_there;
  }
    where
      highest_there :
          (j : ℕ) (g : Text)
          → get_elem? (f ∷ facts) j ≡ some g
          → p.le (score_of new_set g) (score_of new_set b.fact) ≡ true
      highest_there zero g e = ground (
        arith,
        e,
        laws.le_trans (score_of new_set f) score' (score_of new_set b.fact) h' b.reaches,
      )
      highest_there (suc j) g e = b.highest j g e

      last_there :
          (j : ℕ) (g : Text)
          → get_elem? (f ∷ facts) j ≡ some g
          → (ltb (suc k) j && p.le (score_of new_set b.fact) (score_of new_set g)) ≡ false
      last_there zero g e = ground arith
      last_there (suc j) g e = ground (arith, b.last j g e)

  -- What the loop returns: what it began with, all facts being below the score, or the index of the
  -- last best fact.
  Returned : List Text → List Text → ℕ → Option ℕ → F → Option ℕ → Type 0
  Returned new_set facts i best score out =
      ((out ≡ best) × AllBelow new_set facts score)
      ⊎ ((k : ℕ) × (out ≡ some (i + k)) × IsLastBest new_set facts score k)

  Returned-better :
      (new_set : List Text) (f : Text) (facts : List Text) (i : ℕ) (best : Option ℕ) (score : F)
      (out : Option ℕ)
      → IsOrdered p
      → p.le score (score_of new_set f) ≡ true
      → Returned new_set facts (suc i) (some i) (score_of new_set f) out
      → Returned new_set (f ∷ facts) i best score out
  unfolding Returned
  Returned-better new_set f facts i best score out laws h (inl (e, a)) =
      inr (0, ground (arith, e), IsLastBest-here new_set f facts score laws h a)
  Returned-better new_set f facts i best score out laws h (inr (k, e, b)) = inr (
    suc k,
    ground (arith, e),
    IsLastBest-there new_set f facts score _ k laws h (laws.le_refl _) b,
  )

  Returned-kept :
      (new_set : List Text) (f : Text) (facts : List Text) (i : ℕ) (best : Option ℕ) (score : F)
      (out : Option ℕ)
      → IsOrdered p
      → p.le score (score_of new_set f) ≡ false
      → Returned new_set facts (suc i) best score out
      → Returned new_set (f ∷ facts) i best score out
  unfolding Returned
  Returned-kept new_set f facts i best score out laws h (inl (e, a)) =
      inl (e, AllBelow-cons new_set f facts score h a)
  Returned-kept new_set f facts i best score out laws h (inr (k, e, b)) = inr (
    suc k,
    ground (arith, e),
    IsLastBest-there new_set f facts score score k laws (laws.le_refl _) (laws.not_le _ _ h) b,
  )

  best_match-Returned :
      (new_set facts : List Text) (i : ℕ) (best : Option ℕ) (score : F)
      → IsOrdered p
      → Returned new_set facts i best score (best_match p new_set facts i best score)
  unfolding best_match
  best_match-Returned new_set [] i best score laws =
      (unfold Returned in inl (refl, AllBelow-nil new_set score))
  best_match-Returned new_set (f ∷ facts) i best score laws =
      elim (Bool-cases (p.le score (score_of new_set f))) [
        | inl h ↦ rw h (
            Returned-better new_set f facts i best score _ laws h
              (best_match-Returned new_set facts (suc i) (some i) (score_of new_set f) laws))
        | inr h ↦ rw h (
            Returned-kept new_set f facts i best score _ laws h
              (best_match-Returned new_set facts (suc i) best score laws))
      ]

  best_of_Returned :
      (new_set facts : List Text) (score : F) (k : ℕ)
      → Returned new_set facts 0 none score (some k)
      → IsLastBest new_set facts score k
  unfolding Returned
  best_of_Returned new_set facts score k (inl (e, a)) = ground (arith, e)
  best_of_Returned new_set facts score k (inr (k', e, b)) =
      let q : k ≡ k' = ground (arith, e) in rw q b

  match_is_returned :
      (facts : List Text) (new_fact : Text) (threshold : F) (k : ℕ)
      → consolidation_match p facts new_fact threshold ≡ some k
      → best_match p (token_set p new_fact) facts 0 none threshold ≡ some k
  unfolding consolidation_match
  match_is_returned facts new_fact threshold k h = ground (arith, h)

  -- Where ConsolidationMatch returns an index, a fact stands there whose similarity to the new fact
  -- reaches the threshold and that no fact exceeds; of equally similar facts it is the last one.
  pub consolidation_match_lem :
      (facts : List Text) (new_fact : Text) (threshold : F) (k j : ℕ) (g : Text)
      → IsOrdered p
      → consolidation_match p facts new_fact threshold ≡ some k
      → get_elem? facts j ≡ some g
      → (f : Text) × (get_elem? facts k ≡ some f)
        × (p.le threshold (score_of (token_set p new_fact) f) ≡ true)
        × (p.le (score_of (token_set p new_fact) g) (score_of (token_set p new_fact) f) ≡ true)
        × ((ltb k j && p.le (score_of (token_set p new_fact) f) (score_of (token_set p new_fact) g))
            ≡ false)
  consolidation_match_lem facts new_fact threshold k j g laws h e =
      let new_set = token_set p new_fact in
      let returned = best_match-Returned new_set facts 0 none threshold laws in
      let b = best_of_Returned new_set facts threshold k (
        subst (Returned new_set facts 0 none threshold)
          (match_is_returned facts new_fact threshold k h) returned) in
      (b.fact, b.stands, b.reaches, b.highest j g e, b.last j g e)
