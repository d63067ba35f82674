-- ===== src/Genetic/Search/Best.antt =====
-- The best sequence of a generation, as `min` and `index` of genetic.py find it.
use movie_reservation_agent.Prelude.{
  ℕ, suc, ◌+◌, ◌≤◌, ◌<◌, ◌≡◌, refl, ◌∙◌, ap, sym, true, false, some, List, [], ◌∷◌, arith, length,
  get_elem?, ◌==◌, Bool-cases, inl, inr, ◌⊎◌, All, get_elem?-lt, get_elem?-bound,
}
use mathlib.Core.Path.{subst}
use movie_reservation_agent.Int.{ℤ}
use movie_reservation_agent.Exec.{ok}
use movie_reservation_agent.Exec.Returns.{IsReturn}
use movie_reservation_agent.Genetic.{Floats, FitnessScore}
use movie_reservation_agent.Genetic.Search.{min_loop, score_eq, index_loop, sequence_at, best_of}

-- What is an order without equality in Python, `nan` included.
pub record IsStrict (fl : Floats) : Type 0 where
  pub irreflexive : (a : fl.F) → fl.lt a a ≡ false
  pub transitive : (a b c : fl.F) → fl.lt a b ≡ true → fl.lt b c ≡ true → fl.lt a c ≡ true

module _ (fl : Floats) where
  -- No score is less than `score`.
  abbrev pub IsLeast : List (FitnessScore fl) → FitnessScore fl → Type 0
  IsLeast scores score = All (λ t. fl.lt t.score score.score ≡ false) scores

  -- The sequence stands in the population where a score stands that is the given one or equals it.
  pub record IsFound (population : List (List ℤ)) (scores : List (FitnessScore fl))
      (r : List ℤ × FitnessScore fl) : Type 0 where
    pub place : ℕ
    pub sequence_there : get_elem? population place ≡ some r.0
    pub own_score : FitnessScore fl
    pub score_there : get_elem? scores place ≡ some own_score
    pub same : (own_score ≡ r.1) ⊎ (score_eq fl own_score r.1 ≡ true)

  module _ (at : ℕ) (best : FitnessScore fl) (i : ℕ) (s : FitnessScore fl)
      (scores : List (FitnessScore fl)) where
    min_loop_smaller :
        fl.lt s.score best.score ≡ true
        → min_loop fl at best i (s ∷ scores) ≡ min_loop fl i s (i + 1) scores
    unfolding min_loop
    min_loop_smaller h = rw (h, min_loop) refl

    min_loop_not_smaller :
        fl.lt s.score best.score ≡ false
        → min_loop fl at best i (s ∷ scores) ≡ min_loop fl at best (i + 1) scores
    unfolding min_loop
    min_loop_not_smaller h = rw (h, min_loop) refl

  -- The least score stands at its position.
  min_loop_position :
      (all : List (FitnessScore fl)) (at : ℕ) (best : FitnessScore fl) (i : ℕ)
      (scores : List (FitnessScore fl))
      → get_elem? all at ≡ some best
      → ((j : ℕ) → get_elem? all (i + j) ≡ get_elem? scores j)
      → let r = min_loop fl at best i scores in get_elem? all r.0 ≡ some r.1
  unfolding min_loop
  min_loop_position all at best i [] h later = h
  min_loop_position all at best i (s ∷ scores) h later =
      let further : (j : ℕ) → get_elem? all (i + 1 + j) ≡ get_elem? scores j = λ j.
        let shift : i + 1 + j ≡ i + suc j = omega arith in
        ap (get_elem? all) shift ∙ later (suc j) in
      let here : get_elem? all i ≡ some s =
        (let none_more : i ≡ i + 0 = omega arith in ap (get_elem? all) none_more ∙ later 0) in
      elim (Bool-cases (fl.lt s.score best.score)) [
        | inl smaller ↦
            rw (min_loop_smaller at best i s scores smaller)
              (min_loop_position all i s (i + 1) scores here further)
        | inr not_smaller ↦
            rw (min_loop_not_smaller at best i s scores not_smaller)
              (min_loop_position all at best (i + 1) scores h further)
      ]

  -- `index` finds the position of the least score, or an earlier one of an equal score.
  index_loop_finds :
      (at : ℕ) (best : FitnessScore fl) (i : ℕ) (scores : List (FitnessScore fl))
      → i ≤ at
      → at < i + length scores
      → (k : ℕ) × (s : FitnessScore fl) × (index_loop fl at best i scores ≡ some (i + k))
        × (get_elem? scores k ≡ some s)
        × ((i + k ≡ at) ⊎ (score_eq fl s best ≡ true))
  unfolding index_loop
  index_loop_finds at best i [] low high = absurd (omega arith)
  index_loop_finds at best i (s ∷ scores) low high = elim (Bool-cases (i == at)) [
    | inl is_at ↦ (0, s, rw is_at (ground arith), refl, inl (ground arith))
    | inr not_at ↦ elim (Bool-cases (score_eq fl s best)) [
      | inl equal ↦ (0, s, rw (not_at, equal) (ground arith), refl, inr equal)
      | inr other ↦
          let (k, t, e, there, same) =
            index_loop_finds at best (i + 1) scores (ground arith) (omega arith) in
          let shift : i + 1 + k ≡ i + suc k = omega arith in
          (
            suc k,
            t,
            rw (not_at, other, e) (ap some shift),
            there,
            elim same [ inl p ↦ inl (sym shift ∙ p) | inr q ↦ inr q ],
          )
    ]
  ]

  module _ (strict : IsStrict fl) where
    -- What is not less than the least so far is not less than the least.
    min_loop_bound :
        (t : FitnessScore fl) (at : ℕ) (best : FitnessScore fl) (i : ℕ)
        (scores : List (FitnessScore fl))
        → fl.lt t.score best.score ≡ false
        → fl.lt t.score (min_loop fl at best i scores).1.score ≡ false
    unfolding min_loop
    min_loop_bound t at best i [] h = h
    min_loop_bound t at best i (s ∷ scores) h = elim (Bool-cases (fl.lt s.score best.score)) [
      | inr not_smaller ↦
          rw (min_loop_not_smaller at best i s scores not_smaller)
            (min_loop_bound t at best (i + 1) scores h)
      | inl smaller ↦ rw (min_loop_smaller at best i s scores smaller) (
          min_loop_bound t i s (i + 1) scores (elim (Bool-cases (fl.lt t.score s.score)) [
            | inr not_less ↦ not_less
            | inl less ↦
                let lower = strict.transitive t.score s.score best.score less smaller in
                cc (lower, h)
          ]))
    ]

    min_loop-IsLeast :
        (at : ℕ) (best : FitnessScore fl) (i : ℕ) (scores : List (FitnessScore fl))
        → IsLeast scores (min_loop fl at best i scores).1
    min_loop-IsLeast at best i [] = tt
    min_loop-IsLeast at best i (s ∷ scores) = elim (Bool-cases (fl.lt s.score best.score)) [
      | inl smaller ↦
          subst (λ r. IsLeast (s ∷ scores) r.1) (sym (min_loop_smaller at best i s scores smaller))
            (
              min_loop_bound s i s (i + 1) scores (strict.irreflexive s.score),
              min_loop-IsLeast i s (i + 1) scores,
            )
      | inr not_smaller ↦
          subst (λ r. IsLeast (s ∷ scores) r.1)
            (sym (min_loop_not_smaller at best i s scores not_smaller))
            (
              min_loop_bound s at best (i + 1) scores not_smaller,
              min_loop-IsLeast at best (i + 1) scores,
            )
    ]

  -- So it does from the first score on.
  index_finds :
      (scores : List (FitnessScore fl)) (at : ℕ) (best : FitnessScore fl)
      → get_elem? scores at ≡ some best
      → (k : ℕ) × (s : FitnessScore fl) × (index_loop fl at best 0 scores ≡ some k)
        × (get_elem? scores k ≡ some s)
        × ((s ≡ best) ⊎ (score_eq fl s best ≡ true))
  index_finds scores at best there =
      let (k, s, found, score_there, same) =
        index_loop_finds at best 0 scores (omega arith)
          (omega (arith, get_elem?-bound scores at there)) in
      let start : 0 + k ≡ k = omega arith in
      (
        k,
        s,
        found ∙ ap some start,
        score_there,
        elim same [
          | inr equal ↦ inr equal
          | inl here ↦
              let k_there : get_elem? scores k ≡ some best =
                ap (get_elem? scores) (sym start ∙ here) ∙ there in
              inl (cc (score_there, k_there))
        ],
      )

  -- What `best_of` gives of a generation that has a first sequence.
  best_of_finds :
      (population : List (List ℤ)) (s : FitnessScore fl) (scores : List (FitnessScore fl))
      → length (s ∷ scores) ≡ length population
      → (sequence : List ℤ) × (best_of fl population (s ∷ scores)
          ≡ ok (sequence, (min_loop fl 0 s 1 scores).1))
        × IsFound population (s ∷ scores) (sequence, (min_loop fl 0 s 1 scores).1)
  unfolding best_of
  best_of_finds population s scores len =
      let r = min_loop fl 0 s 1 scores in
      let there : get_elem? (s ∷ scores) r.0 ≡ some r.1 =
        min_loop_position (s ∷ scores) 0 s 1 scores refl
          (λ j. let next : 1 + j ≡ suc j = omega arith in ap (get_elem? (s ∷ scores)) next) in
      let (k, t, found, score_there, same) = index_finds (s ∷ scores) r.0 r.1 there in
      let (sequence, at_k) =
        get_elem?-lt population k
          (omega (arith, len, get_elem?-bound (s ∷ scores) k score_there)) in
      (
        sequence,
        rw (found, at_k, sequence_at) refl,
        record {
          place = k;
          sequence_there = at_k;
          own_score = t;
          score_there = score_there;
          same = same;
        },
      )

  -- A generation has a best sequence.
  pub best_of_returns :
      (population : List (List ℤ)) (scores : List (FitnessScore fl))
      → length scores ≡ length population
      → 1 ≤ length population
      → IsReturn (IsFound population scores) (best_of fl population scores)
  best_of_returns population [] len one = absurd (omega (arith, len))
  best_of_returns population (s ∷ scores) len one =
      let (sequence, e, found) = best_of_finds population s scores len in
      ((sequence, (min_loop fl 0 s 1 scores).1), e, found)

  -- Where `<` on the floats is irreflexive and transitive, and there is a score for each of at least
  -- one sequences, the best of a generation is found: no score is less than the one returned, and
  -- the sequence returned stands in the population at a place whose score is it or equals it.
  pub best_of-IsLeast :
      (population : List (List ℤ)) (scores : List (FitnessScore fl))
      → IsStrict fl
      → length scores ≡ length population
      → 1 ≤ length population
      → IsReturn
          (λ r. IsFound population scores r × IsLeast scores r.1)
          (best_of fl population scores)
  best_of-IsLeast population [] strict len one = absurd (omega (arith, len))
  best_of-IsLeast population (s ∷ scores) strict len one =
      let (sequence, e, found) = best_of_finds population s scores len in
      (
        (sequence, (min_loop fl 0 s 1 scores).1),
        e,
        (
          found,
          (
            min_loop_bound strict s 0 s 1 scores (strict.irreflexive s.score),
            min_loop-IsLeast strict 0 s 1 scores,
          ),
        ),
      )
