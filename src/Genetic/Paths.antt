-- ===== src/Genetic/Paths.antt =====
-- The path finders and what uses them: genetic.py and llm.py of
-- llm_agent/llm_agent/infrastructure/navigation/path_finders, ThrottleStepsService, the route of
-- api/http/v1/routes/throttle_steps_calculator.py with its mappers, and the data of domain/game and
-- domain/grid.
pub mod Goals
use movie_reservation_agent.Prelude.{ℕ, Option, none, some, List, [], ◌∷◌, map}
use movie_reservation_agent.Int.{ℤ, pos}
use movie_reservation_agent.Exec.{
  Exn, Result, ok, err, Exec, type_error, index_error, overflow_error, pure, raise, ◌>>=◌,
}
use movie_reservation_agent.Genetic.{Floats, GeneticConfiguration, ThrottleCalculationInput}
use movie_reservation_agent.Genetic.Draws.{Draws}
use movie_reservation_agent.Genetic.Search.{find_optimal_throttle_sequence}

module _ (fl : Floats) where
  open fl use {F, of_int, sub, sqrt_of_squares}

  -- `Coordinate`
  pub record Coordinate : Type 0 where
    pub x : F
    pub y : F

  -- `Unit`
  pub record GameUnit : Type 0 where
    pub coordinate : Coordinate
    pub speed : F
    pub mass : F
    pub friction : F

  -- `UnitGoal`
  pub record UnitGoal : Type 0 where
    pub coordinate : Coordinate
    pub throttle : F

  -- `GameState`
  pub record GameState : Type 0 where
    pub player_units : List GameUnit
    pub enemy_units : List GameUnit

  -- `Coordinate.calc_euclidean_distance`
  abbrev pub calc_euclidean_distance : Coordinate → Coordinate → Option F
  calc_euclidean_distance self other = sqrt_of_squares (sub self.x other.x) (sub self.y other.y)

  -- `PathFinderStrategy`
  pub record PathFinderStrategy : Type 0 where
    pub find_path : GameState → GameUnit → GameUnit → Exec Draws (List UnitGoal)

  abbrev pub some_distance : Option F → Exec Draws F
  some_distance none = raise overflow_error
  some_distance (some d) = pure d

  -- `[UnitGoal(target_unit.coordinate, throttle) for throttle in result.sequence]`
  abbrev pub goals_of : Coordinate → Option (List ℤ) → Exec Draws (List UnitGoal)
  goals_of coordinate none = raise type_error
  goals_of coordinate (some throttles) =
      pure
        (map (λ throttle. record { coordinate = coordinate; throttle = of_int throttle }) throttles)

  -- The input of the search for a unit and a distance.
  abbrev pub input_of : GameUnit → F → ThrottleCalculationInput fl
  input_of main_unit distance = record {
    v0 = main_unit.speed;
    mass = main_unit.mass;
    friction = main_unit.friction;
    d_target = distance;
  }

  -- `GeneticPathFinderStrategy`; `clock` is that of `find_optimal_throttle_sequence`.
  unfoldable pub genetic_strategy : (ℕ → F) → GeneticConfiguration fl → PathFinderStrategy
  genetic_strategy clock config = record {
    find_path = λ game_state main_unit target_unit.
        some_distance (calc_euclidean_distance main_unit.coordinate target_unit.coordinate)
        >>= λ distance_to_target.
            find_optimal_throttle_sequence fl clock (input_of main_unit distance_to_target) config
            >>= λ result. goals_of target_unit.coordinate result.sequence;
  }

  -- `LLMPathFinderStrategy`
  abbrev pub llm_strategy : PathFinderStrategy
  llm_strategy = record {
    find_path = λ game_state main_unit target_unit. pure (
        record { coordinate = main_unit.coordinate; throttle = of_int (pos 0) }
        ∷ record { coordinate = main_unit.coordinate; throttle = of_int (pos 1) }
        ∷ []);
  }

  -- `units[0]`
  abbrev pub first_unit : List GameUnit → Exec Draws GameUnit
  first_unit [] = raise index_error
  first_unit (unit ∷ units) = pure unit

  -- `ThrottleStepsService.calculate_throttle_steps`
  unfoldable pub calculate_throttle_steps :
      PathFinderStrategy → GameState → Exec Draws (List UnitGoal)
  calculate_throttle_steps path_finder game_state =
      first_unit game_state.player_units >>= λ main_unit.
      first_unit game_state.enemy_units >>= λ target_unit.
      path_finder.find_path game_state main_unit target_unit

  -- `CoordinateDto`
  pub record CoordinateDto : Type 0 where
    pub x : F
    pub y : F

  -- `CoordinateDto.to_coordinate`
  abbrev pub to_coordinate : CoordinateDto → Coordinate
  to_coordinate self = record { x = self.x; y = self.y }

  -- `UnitDto`
  pub record UnitDto : Type 0 where
    pub coordinate : CoordinateDto
    pub speed : F
    pub mass : F
    pub friction : F

  -- `GameStateDto`
  pub record GameStateDto : Type 0 where
    pub player_units : List UnitDto
    pub enemy_units : List UnitDto

  -- `UnitGoalDto`
  pub record UnitGoalDto : Type 0 where
    pub coordinate : Coordinate
    pub throttle : F

  -- The `Unit` that the mapper makes of a `UnitDto`.
  abbrev pub unit_from_dto : UnitDto → GameUnit
  unit_from_dto unit = record {
    coordinate = record { x = unit.coordinate.x; y = unit.coordinate.y };
    speed = unit.speed;
    mass = unit.mass;
    friction = unit.friction;
  }

  -- `GameStateV1Mapper.from_dto`
  abbrev pub game_state_from_dto : GameStateDto → GameState
  game_state_from_dto game_state_dto = record {
    player_units = map unit_from_dto game_state_dto.player_units;
    enemy_units = map unit_from_dto game_state_dto.enemy_units;
  }

  -- `UnitGoalMapperV1.to_dto`
  abbrev pub goal_to_dto : UnitGoal → UnitGoalDto
  goal_to_dto unit_goal = record {
    coordinate = unit_goal.coordinate;
    throttle = unit_goal.throttle;
  }

  -- What the route answers: the goals, or `HTTPException(status_code, detail=str(e))`.
  pub data ThrottleResponse : Type 0 where
    steps : List UnitGoalDto → ThrottleResponse
    http_exception : ℕ → Exn → ThrottleResponse

  abbrev pub throttle_answer : Result (List UnitGoal) → ThrottleResponse
  throttle_answer (ok goals) = steps (map goal_to_dto goals)
  throttle_answer (err e) = http_exception 400 e

  -- `throttle_steps`
  unfoldable pub throttle_steps :
      PathFinderStrategy → GameStateDto → Draws → ThrottleResponse × Draws
  unfolding calculate_throttle_steps
  throttle_steps path_finder state s =
      let r = calculate_throttle_steps path_finder (game_state_from_dto state) s in
      (throttle_answer r.0, r.1)
