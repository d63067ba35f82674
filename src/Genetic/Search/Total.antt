-- ===== src/Genetic/Search/Total.antt =====
-- The search of genetic.py ends with a result: no call of it raises.
use movie_reservation_agent.Prelude.{
  ℕ, zero, suc, ◌≤◌, ◌≡◌, refl, ◌∙◌, true, none, some, List, [], ◌∷◌, ◌++◌, arith, length,
  Bool-cases, ◌⊎◌, inl, inr, All, All-append, All-get_elem?, length-append,
}
use movie_reservation_agent.Int.{ℤ}
use movie_reservation_agent.Exec.{Result, ok}
use movie_reservation_agent.Exec.Returns.{IsReturn, Returns, Returns-bind, Returns-pure}
use movie_reservation_agent.Genetic.{
  Floats, GeneticConfiguration, ThrottleCalculationInput, FitnessScore,
  ThrottleSequenceGeneticResult,
}
use movie_reservation_agent.Genetic.Draws.{Draws, sample, sample-Returns}
use movie_reservation_agent.Genetic.Fitness.{fitness}
use movie_reservation_agent.Genetic.Breeding.{generate_initial_population, mutate}
use movie_reservation_agent.Genetic.Breeding.Range.{
  IsIndividual, generate_initial_population-Returns, mutate-Returns,
}
use movie_reservation_agent.Genetic.Search.{
  lift, crossover_loop, fitness_scores, select_best_parents, select_random_parents, mutate_all,
  generation, search_result, generation_loop, find_optimal_throttle_sequence, best_of, score_eq,
}
use movie_reservation_agent.Genetic.Search.Parents.{select_best_parents_lem, crossover_loop-Returns}
use movie_reservation_agent.Genetic.Search.Best.{IsFound, best_of_returns}
use movie_reservation_agent.Genetic.Search.Scores.{IsReady, IsScored, fitness_scores_returns}

module _ (fl : Floats) (input : ThrottleCalculationInput fl)
    (config : GeneticConfiguration fl) where
  -- A sequence of the search with this configuration.
  abbrev pub IsCandidate : List ℤ → Type 0
  IsCandidate = IsIndividual config.throttle_range config.max_sequence_length

  -- A population of the size that is configured.
  abbrev IsPopulation : List (List ℤ) → Type 0
  IsPopulation population =
      All IsCandidate population × (length population ≡ config.population_size)

  -- An answer of the search: a sequence in order, and a score that is its fitness or equals it.
  pub record IsAnswer (r : List ℤ × FitnessScore fl) : Type 0 where
    pub candidate : IsCandidate r.0
    pub own_score : FitnessScore fl
    pub scored : fitness fl input config r.0 ≡ ok own_score
    pub same : (own_score ≡ r.1) ⊎ (score_eq fl own_score r.1 ≡ true)

  -- A result of the search that holds an answer.
  abbrev pub IsComplete : ThrottleSequenceGeneticResult fl → Type 0
  IsComplete result =
      (r : List ℤ × FitnessScore fl) × (result ≡ search_result fl (some r)) × IsAnswer r

module _ (fl : Floats) (input : ThrottleCalculationInput fl) (config : GeneticConfiguration fl)
    (ready : IsReady fl input config) where
  mutate_all-Returns :
      (children : List (List ℤ))
      → All (IsCandidate fl input config) children
      → Returns
          (λ mutants.
            All (IsCandidate fl input config) mutants × (length mutants ≡ length children))
          (mutate_all fl config children)
  unfolding mutate_all
  mutate_all-Returns [] h = Returns-pure [] (tt, refl)
  mutate_all-Returns (child ∷ children) h =
      Returns-bind (mutate fl child config.throttle_range config.mutation_rate) _
        (mutate-Returns fl config.throttle_range config.max_sequence_length ready.ordered
          config.mutation_rate child h.0)
        (λ mutant hm.
          Returns-bind (mutate_all fl config children) _ (mutate_all-Returns children h.1)
            (λ mutants k. Returns-pure (mutant ∷ mutants) ((hm, k.0), omega (arith, k.1))))

  lift-Returns :
      {A : Type 0} {P : A → Type 0} (r : Result A) → IsReturn P r → Returns {S = Draws} P (lift r)
  lift-Returns r h = record { at = λ s. h }

  -- The parents of the next generation are two at least.
  parents_lem :
      (population : List (List ℤ)) (scores : List (FitnessScore fl)) (worst : List (List ℤ))
      → IsPopulation fl input config population
      → length scores ≡ length population
      → (length worst ≡ config.num_worst_parents) × All (IsCandidate fl input config) worst
      → let parents = select_best_parents fl population scores config.num_best_parents ++ worst in
        (2 ≤ length parents) × All (IsCandidate fl input config) parents
  parents_lem population scores worst (h, size) same (count, hw) =
      let best = select_best_parents fl population scores config.num_best_parents in
      let (len, hb) =
        select_best_parents_lem fl (IsCandidate fl input config) population scores
          config.num_best_parents same (omega (arith, ready.best, size)) h in
      (
        omega (arith, length-append best worst, len, count, ready.pairs),
        All-append (IsCandidate fl input config) best worst hb hw,
      )

  found-IsAnswer :
      (population : List (List ℤ)) (scores : List (FitnessScore fl)) (r : List ℤ × FitnessScore fl)
      → IsPopulation fl input config population
      → IsScored fl input config population scores
      → IsFound fl population scores r
      → IsAnswer fl input config r
  found-IsAnswer population scores r h each found = record {
    candidate =
        All-get_elem? (IsCandidate fl input config) population found.place h.0 found.sequence_there;
    own_score = found.own_score;
    scored = each found.place r.0 found.own_score found.sequence_there found.score_there;
    same = found.same;
  }

  generation-Returns :
      (population : List (List ℤ))
      → IsPopulation fl input config population
      → Returns
          (λ next. IsPopulation fl input config next.0 × IsAnswer fl input config next.1)
          (generation fl input config population)
  unfolding generation select_random_parents
  generation-Returns population h =
      let size = h.1 in
      Returns-bind (lift (fitness_scores fl input config population)) _
        (lift-Returns (fitness_scores fl input config population)
          (fitness_scores_returns fl input config ready.divides population))
        (λ scores (same, each).
          let best = select_best_parents fl population scores config.num_best_parents in
          Returns-bind (sample population config.num_worst_parents) _
            (sample-Returns (IsCandidate fl input config) population config.num_worst_parents
              (omega (arith, ready.worst, size)) h.0)
            (λ worst w.
              let (two, hp) = parents_lem population scores worst h same w in
              Returns-bind
                (crossover_loop config.population_size (best ++ worst) config.max_sequence_length) _
                (crossover_loop-Returns config.throttle_range config.max_sequence_length
                  ready.longest config.population_size (best ++ worst) two hp)
                (λ children k.
                  Returns-bind (mutate_all fl config children) _ (mutate_all-Returns children k.0)
                    (λ next q.
                      Returns-bind (lift (best_of fl population scores)) _
                        (lift-Returns (best_of fl population scores) (
                          best_of_returns fl population scores same
                            (omega (arith, size, ready.populated))))
                        (λ found f.
                          Returns-pure (next, found)
                            ((q.0, q.1 ∙ k.1), found-IsAnswer population scores found h each f))))))

  -- From an answer on, the loop ends with an answer.
  generation_loop_goes_on :
      (clock : ℕ → fl.F) (left done : ℕ) (population : List (List ℤ))
      (best : List ℤ × FitnessScore fl)
      → IsPopulation fl input config population
      → IsAnswer fl input config best
      → Returns
          (IsComplete fl input config)
          (generation_loop fl clock input config left done population (some best))
  unfolding generation_loop
  generation_loop_goes_on clock zero done population best h a = Returns-pure _ (best, refl, a)
  generation_loop_goes_on clock (suc left) done population best h a =
      Returns-bind (generation fl input config population) _ (generation-Returns population h)
        (λ next (hn, an).
          elim (Bool-cases (fl.le config.timeout_ms (fl.sub (clock (suc done)) (clock 0)))) [
            | inl late ↦ rw late (Returns-pure _ (next.1, refl, an))
            | inr early ↦
                rw early (generation_loop_goes_on clock left (suc done) next.0 next.1 hn an)
          ])

  -- The first generation gives an answer.
  generation_loop-Returns :
      (clock : ℕ → fl.F) (left done : ℕ) (population : List (List ℤ))
      → 1 ≤ left
      → IsPopulation fl input config population
      → Returns
          (IsComplete fl input config)
          (generation_loop fl clock input config left done population none)
  unfolding generation_loop
  generation_loop-Returns clock zero done population one h = absurd (omega arith)
  generation_loop-Returns clock (suc left) done population one h =
      Returns-bind (generation fl input config population) _ (generation-Returns population h)
        (λ next (hn, an).
          elim (Bool-cases (fl.le config.timeout_ms (fl.sub (clock (suc done)) (clock 0)))) [
            | inl late ↦ rw late (Returns-pure _ (next.1, refl, an))
            | inr early ↦
                rw early (generation_loop_goes_on clock left (suc done) next.0 next.1 hn an)
          ])

  -- With a configuration that is ready and has one generation at least, whatever is drawn and
  -- whatever the clock reads, the search returns: it raises nothing, its sequence has from one to
  -- the largest number of steps, all in the throttle range, and its score is the fitness of that
  -- sequence or equals it.
  pub find_optimal_throttle_sequence-Returns :
      (clock : ℕ → fl.F)
      → 1 ≤ config.num_generations
      → Returns (IsComplete fl input config) (find_optimal_throttle_sequence fl clock input config)
  unfolding find_optimal_throttle_sequence
  find_optimal_throttle_sequence-Returns clock one =
      Returns-bind
        (generate_initial_population config.population_size config.max_sequence_length
          config.throttle_range)
        _
        (generate_initial_population-Returns config.throttle_range ready.ordered
          config.population_size config.max_sequence_length ready.longest)
        (λ population h. generation_loop-Returns clock config.num_generations 0 population one h)
