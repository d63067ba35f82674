-- ===== src/Genetic/Paths/Goals.antt =====
-- What the route of the throttle steps answers with the genetic path finder.
use movie_reservation_agent.Prelude.{ℕ, ◌≤◌, ◌≡◌, refl, ap, ◌∙◌, some, List, [], ◌∷◌, map}
use movie_reservation_agent.Int.{ℤ}
use movie_reservation_agent.Exec.Returns.{Returns, Returns-bind, Returns-pure}
use movie_reservation_agent.Genetic.{Floats, GeneticConfiguration}
use movie_reservation_agent.Genetic.Breeding.Range.{IsIndividual}
use movie_reservation_agent.Genetic.Search.{find_optimal_throttle_sequence}
use movie_reservation_agent.Genetic.Search.Scores.{IsReady}
use movie_reservation_agent.Genetic.Search.Total.{find_optimal_throttle_sequence-Returns}
use movie_reservation_agent.Genetic.Paths.{
  Coordinate, to_coordinate, GameUnit, UnitGoal, GameState, calc_euclidean_distance, goals_of,
  input_of, genetic_strategy, calculate_throttle_steps, UnitDto, UnitGoalDto, unit_from_dto,
  game_state_from_dto, goal_to_dto, steps, throttle_steps,
}

module _ (fl : Floats) (config : GeneticConfiguration fl) where
  -- The goals are the steps of a sequence, all at one place.
  pub record IsPath (place : Coordinate fl) (goals : List (UnitGoalDto fl)) : Type 0 where
    pub throttles : List ℤ
    pub in_order : IsIndividual config.throttle_range config.max_sequence_length throttles
    pub same : goals ≡ map (λ t. record { coordinate = place; throttle = fl.of_int t }) throttles

module _ (fl : Floats) (clock : ℕ → fl.F) (config : GeneticConfiguration fl) where
  -- The same of the goals of the domain.
  abbrev IsGoals : Coordinate fl → List (UnitGoal fl) → Type 0
  IsGoals place goals =
      (throttles : List ℤ) × IsIndividual config.throttle_range config.max_sequence_length throttles
      × (goals ≡ map (λ t. record { coordinate = place; throttle = fl.of_int t }) throttles)

  find_path-Returns :
      (state : GameState fl) (main target : GameUnit fl) (distance : fl.F)
      → calc_euclidean_distance fl main.coordinate target.coordinate ≡ some distance
      → IsReady fl (input_of fl main distance) config
      → 1 ≤ config.num_generations
      → Returns
          (IsGoals target.coordinate)
          ((genetic_strategy fl clock config).find_path state main target)
  unfolding genetic_strategy
  find_path-Returns state main target distance e ready one = rw e (
      Returns-bind (find_optimal_throttle_sequence fl clock (input_of fl main distance) config)
        (λ result. goals_of fl target.coordinate result.sequence)
        (find_optimal_throttle_sequence-Returns fl (input_of fl main distance) config ready clock
          one)
        (λ result (r, same, answer). rw same (Returns-pure _ (r.0, answer.candidate, refl))))

  goals_to_dtos :
      (place : Coordinate fl) (throttles : List ℤ)
      → map
          (goal_to_dto fl)
          (map (λ t. record { coordinate = place; throttle = fl.of_int t }) throttles)
        ≡ map (λ t. record { coordinate = place; throttle = fl.of_int t }) throttles
  goals_to_dtos place [] = refl
  goals_to_dtos place (t ∷ throttles) = rw (goals_to_dtos place throttles) refl

  -- When there are a first player unit and a first enemy unit with a distance between them, the
  -- configuration is ready for them and has one generation at least, the route with the genetic path
  -- finder answers goals, whatever is drawn: all at the place of the first enemy unit, from one to
  -- the largest number of them, with throttles in the range.
  pub throttle_steps_goals :
      (main target : UnitDto fl) (players enemies : List (UnitDto fl)) (distance : fl.F) (s : ℕ → ℕ)
      → calc_euclidean_distance fl
          (to_coordinate fl main.coordinate)
          (to_coordinate fl target.coordinate)
        ≡ some distance
      → IsReady fl (input_of fl (unit_from_dto fl main) distance) config
      → 1 ≤ config.num_generations
      → (goals : List (UnitGoalDto fl)) × ((throttle_steps fl
            (genetic_strategy fl clock config)
            (record { player_units = main ∷ players; enemy_units = target ∷ enemies })
            s).0
          ≡ steps goals)
        × IsPath fl config (to_coordinate fl target.coordinate) goals
  unfolding throttle_steps calculate_throttle_steps
  throttle_steps_goals main target players enemies distance s e ready one =
      let state =
        game_state_from_dto fl
          (record { player_units = main ∷ players; enemy_units = target ∷ enemies }) in
      let (goals, found, (throttles, in_order, same)) =
        (find_path-Returns state (unit_from_dto fl main) (unit_from_dto fl target) distance e ready
            one).at
          s in
      (
        map (goal_to_dto fl) goals,
        rw found refl,
        record {
          throttles = throttles;
          in_order = in_order;
          same =
              ap (map (goal_to_dto fl)) same
              ∙ goals_to_dtos (to_coordinate fl target.coordinate) throttles;
        },
      )
