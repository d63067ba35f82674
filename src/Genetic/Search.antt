-- ===== src/Genetic/Search.antt =====
-- `select_best_parents`, `select_random_parents` and `find_optimal_throttle_sequence` of genetic.py.
pub mod Best
pub mod Parents
pub mod Scores
pub mod Total
use movie_reservation_agent.Prelude.{
  ℕ, zero, suc, ◌+◌, Bool, true, false, ◌&&◌, ◌||◌, Option, none, some, List, [], ◌∷◌, ◌++◌, map,
  length, take, get_elem?, ◌==◌, if◌then◌else◌,
}
use movie_reservation_agent.Int.{ℤ}
use movie_reservation_agent.Exec.{
  Result, ok, err, Exec, value_error, index_error, pure, raise, ◌>>=◌,
}
use movie_reservation_agent.Genetic.{
  Floats, GeneticConfiguration, ThrottleCalculationInput, FitnessScore,
  ThrottleSequenceGeneticResult,
}
use movie_reservation_agent.Genetic.Draws.{Draws, sample}
use movie_reservation_agent.Genetic.Fitness.{fitness}
use movie_reservation_agent.Genetic.Breeding.{generate_initial_population, crossover, mutate}

-- A result that needs no draw.
abbrev pub lift : {A : Type 0} → Result A → Exec Draws A
lift r s = (r, s)

abbrev pub of_option : {A : Type 0} → Option A → Exec Draws A
of_option none s = (err value_error, s)
of_option (some a) s = (ok a, s)

-- `parent1, parent2 = ...`
abbrev pub two_of : {A : Type 0} → List A → Option (A × A)
two_of (a ∷ b ∷ []) = some (a, b)
two_of _ = none

-- The `while` loop of a generation: `missing` children are still to be made.
unfoldable pub crossover_loop : ℕ → List (List ℤ) → ℕ → Exec Draws (List (List ℤ))
crossover_loop zero all_parents max_sequence_length = pure []
crossover_loop (suc missing) all_parents max_sequence_length = sample all_parents 2 >>= λ parents.
    of_option (two_of parents) >>= λ pair. crossover pair.0 pair.1 max_sequence_length >>= λ child.
    crossover_loop missing all_parents max_sequence_length >>= λ children. pure (child ∷ children)

module _ (fl : Floats) where
  open fl use {F, lt, le, eq, sub}

  -- `[fitness(...) for throttles in population]`
  unfoldable pub fitness_scores :
      ThrottleCalculationInput fl
      → GeneticConfiguration fl
      → List (List ℤ)
      → Result (List (FitnessScore fl))
  fitness_scores input config [] = ok []
  fitness_scores input config (throttles ∷ population) = elim (fitness fl input config throttles) [
    | err e ↦ err e
    | ok score ↦ elim (fitness_scores input config population) [
      | err e ↦ err e
      | ok scores ↦ ok (score ∷ scores)
    ]
  ]

  -- `zip(population, fitnesses)`
  abbrev pub zip : List (List ℤ) → List (FitnessScore fl) → List (List ℤ × FitnessScore fl)
  zip [] scores = []
  zip (p ∷ ps) [] = []
  zip (p ∷ ps) (s ∷ scores) = (p, s) ∷ zip ps scores

  -- `sorted(..., key=lambda x: x[1].score)`, which is stable.
  unfoldable pub insert_scored :
      List ℤ × FitnessScore fl → List (List ℤ × FitnessScore fl) → List (List ℤ × FitnessScore fl)
  insert_scored p [] = p ∷ []
  insert_scored p (q ∷ qs) = if lt q.1.score p.1.score then q ∷ insert_scored p qs else p ∷ q ∷ qs

  unfoldable pub sort_scored : List (List ℤ × FitnessScore fl) → List (List ℤ × FitnessScore fl)
  unfolding insert_scored
  sort_scored [] = []
  sort_scored (p ∷ ps) = insert_scored p (sort_scored ps)

  abbrev pub sequence_of : List ℤ × FitnessScore fl → List ℤ
  sequence_of p = p.0

  -- `select_best_parents`
  unfoldable pub select_best_parents : List (List ℤ) → List (FitnessScore fl) → ℕ → List (List ℤ)
  unfolding sort_scored
  select_best_parents population fitnesses num_parents =
      map sequence_of (take num_parents (sort_scored (zip population fitnesses)))

  -- `select_random_parents`
  unfoldable pub select_random_parents :
      List (List ℤ) → List (FitnessScore fl) → ℕ → Exec Draws (List (List ℤ))
  select_random_parents population fitnesses num_parents = sample population num_parents

  -- `[mutate(child, ...) for child in next_generation]`
  unfoldable pub mutate_all : GeneticConfiguration fl → List (List ℤ) → Exec Draws (List (List ℤ))
  mutate_all config [] = pure []
  mutate_all config (child ∷ children) =
      mutate fl child config.throttle_range config.mutation_rate >>= λ mutant.
      mutate_all config children >>= λ mutants. pure (mutant ∷ mutants)

  -- `min(fitness_scores, key=lambda x: x.score)`: the first of the least; `best` is the least so far
  -- and stands at `at`, and `i` is the place of the next one.
  unfoldable pub min_loop : ℕ → FitnessScore fl → ℕ → List (FitnessScore fl) → ℕ × FitnessScore fl
  min_loop at best i [] = (at, best)
  min_loop at best i (s ∷ scores) =
      let smaller = lt s.score best.score in
      min_loop (if smaller then i else at) (if smaller then s else best) (i + 1) scores

  -- `==` of two fitness scores
  abbrev pub score_eq : FitnessScore fl → FitnessScore fl → Bool
  score_eq a b =
      eq a.score b.score
      && (eq a.distance_diff b.distance_diff
          && (eq a.speed_penalty b.speed_penalty && (a.length_penalty == b.length_penalty)))

  -- `fitness_scores.index(best_fitness)`, where `best_fitness` stands at `at`: the first score that
  -- is it or equals it; `i` is the place of the next one.
  unfoldable pub index_loop : ℕ → FitnessScore fl → ℕ → List (FitnessScore fl) → Option ℕ
  index_loop at best i [] = none
  index_loop at best i (s ∷ scores) =
      if (i == at) || score_eq s best then some i else index_loop at best (i + 1) scores

  -- `population[i]`
  abbrev pub sequence_at :
      List (List ℤ) → FitnessScore fl → Option ℕ → Result (List ℤ × FitnessScore fl)
  sequence_at population best none = err value_error
  sequence_at population best (some i) = elim (get_elem? population i) [
    | none ↦ err index_error
    | some sequence ↦ ok (sequence, best)
  ]

  -- The best sequence and its fitness, at the end of a generation.
  unfoldable pub best_of :
      List (List ℤ) → List (FitnessScore fl) → Result (List ℤ × FitnessScore fl)
  unfolding min_loop index_loop
  best_of population [] = err value_error
  best_of population (s ∷ scores) =
      let best = min_loop 0 s 1 scores in
      sequence_at population best.1 (index_loop best.0 best.1 0 (s ∷ scores))

  -- One generation: the next population, and the best sequence of this one with its fitness.
  unfoldable pub generation :
      ThrottleCalculationInput fl
      → GeneticConfiguration fl
      → List (List ℤ)
      → Exec Draws (List (List ℤ) × (List ℤ × FitnessScore fl))
  generation input config population = lift (fitness_scores input config population) >>= λ scores.
      let best_parents = select_best_parents population scores config.num_best_parents in
      select_random_parents population scores config.num_worst_parents >>= λ worst_parents.
      crossover_loop config.population_size (best_parents ++ worst_parents)
        config.max_sequence_length
      >>= λ children. mutate_all config children >>= λ next_generation.
          lift (best_of population scores) >>= λ best. pure (next_generation, best)

  abbrev pub search_result : Option (List ℤ × FitnessScore fl) → ThrottleSequenceGeneticResult fl
  search_result none = record { sequence = none; fitness_score = none }
  search_result (some (sequence, score)) = record {
    sequence = some sequence;
    fitness_score = some score;
  }

  -- The loop over the generations: `left` are to come, and `done` are made; `clock n` is the reading
  -- of the clock after `n` of them, in milliseconds.
  unfoldable pub generation_loop :
      (ℕ → F)
      → ThrottleCalculationInput fl
      → GeneticConfiguration fl
      → ℕ
      → ℕ
      → List (List ℤ)
      → Option (List ℤ × FitnessScore fl)
      → Exec Draws (ThrottleSequenceGeneticResult fl)
  generation_loop clock input config zero done population best = pure (search_result best)
  generation_loop clock input config (suc left) done population best =
      generation input config population >>= λ next.
      let more = generation_loop clock input config left (suc done) next.0 (some next.1) in
      if le config.timeout_ms (sub (clock (suc done)) (clock 0))
      then pure (search_result (some next.1))
      else more

  -- `find_optimal_throttle_sequence`
  unfoldable pub find_optimal_throttle_sequence :
      (ℕ → F)
      → ThrottleCalculationInput fl
      → GeneticConfiguration fl
      → Exec Draws (ThrottleSequenceGeneticResult fl)
  find_optimal_throttle_sequence clock input config =
      generate_initial_population config.population_size config.max_sequence_length
        config.throttle_range
      >>= λ population. generation_loop clock input config config.num_generations 0 population none
