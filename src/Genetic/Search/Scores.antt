-- ===== src/Genetic/Search/Scores.antt =====
-- The scores of a population in genetic.py, and when the search can run.
use movie_reservation_agent.Prelude.{
  ℕ, zero, suc, ◌+◌, ◌≤◌, ◌≡◌, refl, true, some, List, [], ◌∷◌, arith, length, get_elem?, is_some,
}
use movie_reservation_agent.Int.{ℤ, ◌≤ℤ◌}
use movie_reservation_agent.Exec.{ok}
use movie_reservation_agent.Exec.Returns.{IsReturn}
use movie_reservation_agent.Genetic.{
  Floats, GeneticConfiguration, ThrottleCalculationInput, FitnessScore,
}
use movie_reservation_agent.Genetic.Fitness.{fitness, fitness_returns}
use movie_reservation_agent.Genetic.Search.{fitness_scores}

-- A configuration and an input with which the search can run.
pub record IsReady (fl : Floats) (input : ThrottleCalculationInput fl)
    (config : GeneticConfiguration fl) : Type 0 where
  pub longest : 1 ≤ config.max_sequence_length
  pub ordered : config.throttle_range.0 ≤ℤ config.throttle_range.1
  pub populated : 1 ≤ config.population_size
  pub best : config.num_best_parents ≤ config.population_size
  pub worst : config.num_worst_parents ≤ config.population_size
  pub pairs : 2 ≤ config.num_best_parents + config.num_worst_parents
  pub divides : (a : fl.F) → is_some (fl.div a input.mass) ≡ true

-- Each score is the fitness of the sequence at its place.
abbrev pub IsScored :
    (fl : Floats)
    → ThrottleCalculationInput fl
    → GeneticConfiguration fl
    → List (List ℤ)
    → List (FitnessScore fl)
    → Type 0
IsScored fl input config population scores =
    (k : ℕ) (throttles : List ℤ) (score : FitnessScore fl)
    → get_elem? population k ≡ some throttles
    → get_elem? scores k ≡ some score
    → fitness fl input config throttles ≡ ok score

module _ (fl : Floats) (input : ThrottleCalculationInput fl)
    (config : GeneticConfiguration fl) where
  IsScored-cons :
      (population : List (List ℤ)) (scores : List (FitnessScore fl)) (throttles : List ℤ)
      (score : FitnessScore fl)
      → fitness fl input config throttles ≡ ok score
      → IsScored fl input config population scores
      → IsScored fl input config (throttles ∷ population) (score ∷ scores)
  IsScored-cons population scores throttles score e each zero throttles' score' there score_there =
      let same_throttles : throttles ≡ throttles' = cc there in
      let same_score : score ≡ score' = cc score_there in cc (e, same_throttles, same_score)
  IsScored-cons population scores throttles score e each (suc k) throttles' score' there
        score_there =
      each k throttles' score' there score_there

  pub fitness_scores_returns :
      ((a : fl.F) → is_some (fl.div a input.mass) ≡ true)
      → (population : List (List ℤ))
      → IsReturn
          (λ scores.
            (length scores ≡ length population) × IsScored fl input config population scores)
          (fitness_scores fl input config population)
  unfolding fitness_scores
  fitness_scores_returns divides [] = ([], refl, (refl, λ k ts score e. absurd (ground (arith, e))))
  fitness_scores_returns divides (ts ∷ population) =
      let (score, e, _) = fitness_returns fl input config ts divides in
      let (scores, es, (len, each)) = fitness_scores_returns divides population in
      (
        score ∷ scores,
        rw (e, es, fitness_scores) refl,
        (omega (arith, len), IsScored-cons population scores ts score e each),
      )
