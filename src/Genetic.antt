-- ===== src/Genetic.antt =====
-- The genetic path finder: the data of llm_agent/llm_agent/domain/genetic_path. The search itself is
-- llm_agent/llm_agent/infrastructure/navigation/path_finders/genetic.py.
pub mod Draws
pub mod Fitness
pub mod Breeding
pub mod Search
pub mod Paths
use movie_reservation_agent.Prelude.{ℕ, Bool, Option, List}
use movie_reservation_agent.Int.{ℤ}

-- Python's `float` with its operations, in which an `int` takes part as the float of its value.
-- `div` has no result where Python raises `ZeroDivisionError`, and `random_of n` is the float that
-- `random.random()` makes of the draw `n`. `sqrt_of_squares a b` is `(a ** 2 + b ** 2) ** 0.5`, which
-- has no result where Python raises `OverflowError`.
pub record Floats : Type 1 where
  pub F : Type 0
  pub of_int : ℤ → F
  pub add : F → F → F
  pub sub : F → F → F
  pub mul : F → F → F
  pub div : F → F → Option F
  pub abs : F → F
  pub sqrt_of_squares : F → F → Option F
  pub lt : F → F → Bool
  pub le : F → F → Bool
  pub eq : F → F → Bool
  pub random_of : ℕ → F

module _ (fl : Floats) where
  open fl use {F}

  -- `GeneticConfiguration`
  pub record GeneticConfiguration : Type 0 where
    pub max_sequence_length : ℕ
    pub population_size : ℕ
    pub num_generations : ℕ
    pub mutation_rate : F
    pub num_best_parents : ℕ
    pub num_worst_parents : ℕ
    pub speed_threshold : F
    pub throttle_range : ℤ × ℤ
    pub distance_weight : F
    pub speed_weight : F
    pub length_weight : F
    pub nonzero_weight : F
    pub timeout_ms : F

  -- `ThrottleCalculationInput`
  pub record ThrottleCalculationInput : Type 0 where
    pub v0 : F
    pub mass : F
    pub friction : F
    pub d_target : F

  -- `FitnessScore`
  pub record FitnessScore : Type 0 where
    pub score : F
    pub distance_diff : F
    pub speed_penalty : F
    pub length_penalty : ℕ

  -- `ThrottleSequenceGeneticResult`: without a generation both fields are `None`.
  pub record ThrottleSequenceGeneticResult : Type 0 where
    pub sequence : Option (List ℤ)
    pub fitness_score : Option FitnessScore
