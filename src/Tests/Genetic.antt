-- ===== src/Tests/Genetic.antt =====
-- The search for throttles with natural numbers in the place of floats, and its theorems there.
use movie_reservation_agent.Prelude.{
  ℕ, zero, suc, ◌+◌, ◌-◌, ◌*◌, ◌/◌, ◌≡◌, refl, true, false, Option, none, some, List, [], ◌∷◌,
  arith, ltb, ◌==◌, not,
}
use movie_reservation_agent.Int.{pos, pos_part}
use movie_reservation_agent.Exec.Returns.{IsReturn, Returns}
use movie_reservation_agent.Genetic.{
  Floats, GeneticConfiguration, ThrottleCalculationInput, FitnessScore,
}
use movie_reservation_agent.Genetic.Search.{best_of, find_optimal_throttle_sequence}
use movie_reservation_agent.Genetic.Search.Best.{IsStrict, IsFound, IsLeast, best_of-IsLeast}
use movie_reservation_agent.Genetic.Search.Scores.{IsReady}
use movie_reservation_agent.Genetic.Search.Total.{
  IsComplete, find_optimal_throttle_sequence-Returns,
}
use movie_reservation_agent.Genetic.Paths.{
  UnitDto, UnitGoalDto, genetic_strategy, steps, throttle_steps,
}
use movie_reservation_agent.Genetic.Paths.Goals.{IsPath, throttle_steps_goals}

abbrev divide : ℕ → ℕ → Option ℕ
divide a zero = none
divide a (suc b) = some (a / suc b)

abbrev naturals : Floats
naturals = record {
  F = ℕ;
  of_int = pos_part;
  add = λ a b. a + b;
  sub = λ a b. a - b;
  mul = λ a b. a * b;
  div = divide;
  abs = λ a. a;
  sqrt_of_squares = λ a b. some (a + b);
  lt = ltb;
  le = λ a b. not (ltb b a);
  eq = λ a b. a == b;
  random_of = λ n. n;
}

ltb-transitive : (a b c : ℕ) → ltb a b ≡ true → ltb b c ≡ true → ltb a c ≡ true
ltb-transitive a b c h k = ground arith

ltb-irreflexive : (a : ℕ) → ltb a a ≡ false
ltb-irreflexive a = ground arith

naturals-IsStrict : IsStrict naturals
naturals-IsStrict = record { irreflexive = ltb-irreflexive; transitive = ltb-transitive }

abbrev config : GeneticConfiguration naturals
config = record {
  max_sequence_length = 3;
  population_size = 2;
  num_generations = 2;
  mutation_rate = 1;
  num_best_parents = 1;
  num_worst_parents = 1;
  speed_threshold = 5;
  throttle_range = (pos 0, pos 9);
  distance_weight = 1;
  speed_weight = 1;
  length_weight = 1;
  nonzero_weight = 1;
  timeout_ms = 1000;
}

abbrev unit_at : ℕ → UnitDto naturals
unit_at n = record { coordinate = record { x = n; y = 0 }; speed = 0; mass = 1; friction = 0 }

abbrev input : ThrottleCalculationInput naturals
input = record { v0 = 0; mass = 1; friction = 0; d_target = 7 }

config-IsReady : IsReady naturals input config
config-IsReady = record {
  longest = omega arith;
  ordered = omega arith;
  populated = omega arith;
  best = omega arith;
  worst = omega arith;
  pairs = omega arith;
  divides = λ a. refl;
}

abbrev score_of : ℕ → FitnessScore naturals
score_of n = record { score = n; distance_diff = 0; speed_penalty = 0; length_penalty = 1 }

best_of-IsLeast_example :
    IsReturn
      (λ r.
        IsFound naturals ((pos 1 ∷ []) ∷ (pos 2 ∷ []) ∷ []) (score_of 5 ∷ score_of 3 ∷ []) r
        × IsLeast naturals (score_of 5 ∷ score_of 3 ∷ []) r.1)
      (best_of naturals ((pos 1 ∷ []) ∷ (pos 2 ∷ []) ∷ []) (score_of 5 ∷ score_of 3 ∷ []))
best_of-IsLeast_example =
    best_of-IsLeast naturals ((pos 1 ∷ []) ∷ (pos 2 ∷ []) ∷ []) (score_of 5 ∷ score_of 3 ∷ [])
      naturals-IsStrict refl (omega arith)

find_optimal_throttle_sequence-Returns_example :
    Returns
      (IsComplete naturals input config)
      (find_optimal_throttle_sequence naturals (λ n. n) input config)
find_optimal_throttle_sequence-Returns_example =
    find_optimal_throttle_sequence-Returns naturals input config config-IsReady (λ n. n)
      (omega arith)

throttle_steps_goals_example :
    (goals : List (UnitGoalDto naturals)) × ((throttle_steps naturals
        (genetic_strategy naturals (λ n. n) config)
        (record { player_units = unit_at 9 ∷ []; enemy_units = unit_at 2 ∷ [] })
        (λ n. n)).0
      ≡ steps goals)
    × IsPath naturals config (record { x = 2; y = 0 }) goals
throttle_steps_goals_example =
    throttle_steps_goals naturals (λ n. n) config (unit_at 9) (unit_at 2) [] [] 7 (λ n. n) refl
      config-IsReady (omega arith)
