-- ===== src/Genetic/Search/Parents.antt =====
-- The parents of a generation of genetic.py and the children that are made of them.
use movie_reservation_agent.Prelude.{
  ℕ, zero, suc, ◌≤◌, ◌≡◌, refl, ◌∙◌, List, [], ◌∷◌, map, arith, length, take, Bool-cases, inl, inr,
  All, All-take, length-take,
}
use movie_reservation_agent.Int.{ℤ}
use movie_reservation_agent.Exec.Returns.{Returns, Returns-bind, Returns-pure}
use movie_reservation_agent.Genetic.{Floats, FitnessScore}
use movie_reservation_agent.Genetic.Draws.{Draws, sample, sample-Returns}
use movie_reservation_agent.Genetic.Breeding.{crossover}
use movie_reservation_agent.Genetic.Breeding.Range.{IsIndividual, crossover-Returns}
use movie_reservation_agent.Genetic.Search.{
  of_option, two_of, crossover_loop, zip, insert_scored, sort_scored, sequence_of,
  select_best_parents,
}

module _ (fl : Floats) where
  -- What holds of the sequences holds of them beside their scores.
  abbrev IsOn : (List ℤ → Type 0) → List ℤ × FitnessScore fl → Type 0
  IsOn P p = P p.0

  length-zip :
      (ps : List (List ℤ)) (scores : List (FitnessScore fl))
      → length scores ≡ length ps
      → length (zip fl ps scores) ≡ length ps
  length-zip [] scores e = refl
  length-zip (p ∷ ps) [] e = absurd (omega (arith, e))
  length-zip (p ∷ ps) (s ∷ scores) e = omega (arith, length-zip ps scores (omega (arith, e)))

  length-insert_scored :
      (p : List ℤ × FitnessScore fl) (qs : List (List ℤ × FitnessScore fl))
      → length (insert_scored fl p qs) ≡ suc (length qs)
  unfolding insert_scored
  length-insert_scored p [] = refl
  length-insert_scored p (q ∷ qs) = elim (Bool-cases (fl.lt q.1.score p.1.score)) [
    | inl before ↦ rw before (omega (arith, length-insert_scored p qs))
    | inr after ↦ rw after refl
  ]

  length-sort_scored :
      (ps : List (List ℤ × FitnessScore fl)) → length (sort_scored fl ps) ≡ length ps
  unfolding sort_scored
  length-sort_scored [] = refl
  length-sort_scored (p ∷ ps) =
      omega (arith, length-insert_scored p (sort_scored fl ps), length-sort_scored ps)

  length-sequences :
      (ps : List (List ℤ × FitnessScore fl)) → length (map (sequence_of fl) ps) ≡ length ps
  length-sequences [] = refl
  length-sequences (p ∷ ps) = omega (arith, length-sequences ps)

  module _ (P : List ℤ → Type 0) where
    All-zip :
        (ps : List (List ℤ)) (scores : List (FitnessScore fl))
        → All P ps
        → All (IsOn P) (zip fl ps scores)
    All-zip [] scores h = tt
    All-zip (p ∷ ps) [] h = tt
    All-zip (p ∷ ps) (s ∷ scores) h = (h.0, All-zip ps scores h.1)

    All-insert_scored :
        (p : List ℤ × FitnessScore fl) (qs : List (List ℤ × FitnessScore fl))
        → P p.0
        → All (IsOn P) qs
        → All (IsOn P) (insert_scored fl p qs)
    unfolding insert_scored
    All-insert_scored p [] h hs = (h, tt)
    All-insert_scored p (q ∷ qs) h hs = elim (Bool-cases (fl.lt q.1.score p.1.score)) [
      | inl before ↦ rw before (hs.0, All-insert_scored p qs h hs.1)
      | inr after ↦ rw after (h, hs)
    ]

    All-sort_scored :
        (ps : List (List ℤ × FitnessScore fl)) → All (IsOn P) ps → All (IsOn P) (sort_scored fl ps)
    unfolding sort_scored
    All-sort_scored [] h = tt
    All-sort_scored (p ∷ ps) h =
        All-insert_scored p (sort_scored fl ps) h.0 (All-sort_scored ps h.1)

    All-sequences :
        (ps : List (List ℤ × FitnessScore fl)) → All (IsOn P) ps → All P (map (sequence_of fl) ps)
    All-sequences [] h = tt
    All-sequences (p ∷ ps) h = (h.0, All-sequences ps h.1)

    -- The best parents are from the population and are as many as asked for.
    pub select_best_parents_lem :
        (population : List (List ℤ)) (scores : List (FitnessScore fl)) (k : ℕ)
        → length scores ≡ length population
        → k ≤ length population
        → All P population
        → (length (select_best_parents fl population scores k) ≡ k)
          × All P (select_best_parents fl population scores k)
    unfolding select_best_parents
    select_best_parents_lem population scores k same le h =
        let zipped = zip fl population scores in
        let long : length (sort_scored fl zipped) ≡ length population =
          length-sort_scored zipped ∙ length-zip population scores same in
        (
          length-sequences (take k (sort_scored fl zipped))
              ∙ length-take k (sort_scored fl zipped) (omega (arith, long, le)),
          All-sequences (take k (sort_scored fl zipped)) (
              All-take (IsOn P) k (sort_scored fl zipped)
                (All-sort_scored zipped (All-zip population scores h))),
        )

module _ {A : Type 0} (P : A → Type 0) where
  two_of-Returns :
      (xs : List A)
      → length xs ≡ 2
      → All P xs
      → Returns {S = Draws} (λ pair. P pair.0 × P pair.1) (of_option (two_of xs))
  two_of-Returns [] e h = absurd (omega (arith, e))
  two_of-Returns (a ∷ []) e h = absurd (omega (arith, e))
  two_of-Returns (a ∷ b ∷ []) e h = record { at = λ s. ((a, b), refl, (h.0, h.1.0)) }
  two_of-Returns (a ∷ b ∷ c ∷ xs) e h = absurd (omega (arith, e))

module _ (range : ℤ × ℤ) (longest : ℕ) (one : 1 ≤ longest) where
  -- The children asked for are made, of any two parents at hand.
  pub crossover_loop-Returns :
      (missing : ℕ) (parents : List (List ℤ))
      → 2 ≤ length parents
      → All (IsIndividual range longest) parents
      → Returns
          (λ children. All (IsIndividual range longest) children × (length children ≡ missing))
          (crossover_loop missing parents longest)
  unfolding crossover_loop
  crossover_loop-Returns zero parents two h = Returns-pure [] (tt, refl)
  crossover_loop-Returns (suc missing) parents two h =
      Returns-bind (sample parents 2) _
        (sample-Returns (IsIndividual range longest) parents 2 two h)
        (λ chosen c.
          Returns-bind (of_option (two_of chosen)) _
            (two_of-Returns (IsIndividual range longest) chosen c.0 c.1)
            (λ pair p.
              Returns-bind (crossover pair.0 pair.1 longest) _
                (crossover-Returns range longest pair.0 pair.1 one p.0 p.1)
                (λ child hc.
                  Returns-bind (crossover_loop missing parents longest) _
                    (crossover_loop-Returns missing parents two h)
                    (λ children k.
                      Returns-pure (child ∷ children) ((hc, k.0), omega (arith, k.1))))))
