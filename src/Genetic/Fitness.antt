-- ===== src/Genetic/Fitness.antt =====
-- `calculate_velocity`, `calculate_total_distance`, `fitness` and
-- `get_distance_for_throttles_velocities` of genetic.py.
use movie_reservation_agent.Prelude.{
  ℕ, zero, suc, ◌≡◌, refl, Bool, true, false, Option, none, some, List, [], ◌∷◌, ◌++◌, length,
  if◌then◌else◌, is_some, is_some-value,
}
use movie_reservation_agent.Int.{ℤ, pos}
use movie_reservation_agent.Exec.{Result, ok, err, zero_division}
use movie_reservation_agent.Exec.Returns.{IsReturn}
use movie_reservation_agent.Genetic.{
  Floats, GeneticConfiguration, ThrottleCalculationInput, FitnessScore,
}

-- `throttle == 0`
abbrev pub is_zero : ℤ → Bool
is_zero (pos zero) = true
is_zero _ = false

-- `len(throttles) - throttles.count(0)`
abbrev pub nonzero_count : List ℤ → ℕ
nonzero_count [] = 0
nonzero_count (t ∷ ts) = if is_zero t then nonzero_count ts else suc (nonzero_count ts)

module _ (fl : Floats) where
  open fl use {F, of_int, add, sub, mul, div, abs, lt, le}

  abbrev velocity_after : F → Option F → F → Result F
  velocity_after v0 none f = err zero_division
  velocity_after v0 (some a) f = ok (mul (add v0 a) (sub (of_int (pos 1)) f))

  -- `calculate_velocity`
  unfoldable pub calculate_velocity : F → ℤ → F → F → Result F
  calculate_velocity v0 throttle m f = velocity_after v0 (div (of_int throttle) m) f

  -- The loop of `calculate_total_distance`, from a distance and a velocity on.
  unfoldable pub distance_loop : F → F → List ℤ → F → F → Result (F × F)
  distance_loop total velocity [] m f = ok (total, velocity)
  distance_loop total velocity (throttle ∷ throttles) m f =
      elim (calculate_velocity velocity throttle m f) [
        | ok v ↦ distance_loop (add total v) v throttles m f
        | err e ↦ err e
      ]

  -- `calculate_total_distance`
  unfoldable pub calculate_total_distance : F → List ℤ → F → F → Result (F × F)
  unfolding distance_loop
  calculate_total_distance v0 throttles m f = distance_loop (of_int (pos 0)) v0 throttles m f

  -- The penalty for the final speed.
  abbrev pub speed_penalty_of : F → F → F
  speed_penalty_of final_speed v_threshold =
      if le (of_int (pos 0)) final_speed
      then if le final_speed v_threshold then of_int (pos 0) else abs (sub final_speed v_threshold)
      else abs (sub final_speed v_threshold)

  -- The score that `fitness` makes of the distance and the final speed.
  abbrev pub score_of :
      ThrottleCalculationInput fl → GeneticConfiguration fl → List ℤ → F → F → FitnessScore fl
  score_of input config throttles total_distance final_speed =
      let distance_diff = abs (sub input.d_target total_distance) in
      let speed_penalty = speed_penalty_of final_speed config.speed_threshold in
      record {
        score =
            add
              (add
                (add (mul config.distance_weight distance_diff)
                  (mul config.speed_weight speed_penalty))
                (mul config.length_weight (of_int (pos (length throttles)))))
              (mul (of_int (pos (nonzero_count throttles))) config.nonzero_weight);
        distance_diff = distance_diff;
        speed_penalty = speed_penalty;
        length_penalty = length throttles;
      }

  abbrev scored :
      ThrottleCalculationInput fl
      → GeneticConfiguration fl
      → List ℤ
      → Result (F × F)
      → Result (FitnessScore fl)
  scored input config throttles (err e) = err e
  scored input config throttles (ok (total_distance, final_speed)) =
      ok (score_of input config throttles total_distance final_speed)

  -- `fitness`, with the weights of the configuration
  unfoldable pub fitness :
      ThrottleCalculationInput fl → GeneticConfiguration fl → List ℤ → Result (FitnessScore fl)
  unfolding calculate_total_distance
  fitness input config throttles =
      scored input config throttles
        (calculate_total_distance input.v0 throttles input.mass input.friction)

  -- The loop of `get_distance_for_throttles_velocities`.
  unfoldable pub velocities_loop : F → F → F → F → List ℤ → List (F × F) → Result (List (F × F))
  velocities_loop velocity distance m f [] seen = ok seen
  velocities_loop velocity distance m f (throttle ∷ throttles) seen =
      elim (calculate_velocity velocity throttle m f) [
        | ok v ↦ velocities_loop v (add distance v) m f throttles (seen ++ (add distance v, v) ∷ [])
        | err e ↦ err e
      ]

  -- `get_distance_for_throttles_velocities`
  unfoldable pub get_distance_for_throttles_velocities :
      F → F → F → List ℤ → F → Result (List (F × F))
  unfolding velocities_loop
  get_distance_for_throttles_velocities v0 m f throttles start_position =
      velocities_loop v0 start_position m f throttles ((start_position, v0) ∷ [])

  module _ (m : F) (divides : (a : F) → is_some (div a m) ≡ true) where
    calculate_velocity_returns :
        (v0 : F) (throttle : ℤ) (f : F)
        → IsReturn (λ (v : F). Unit {0}) (calculate_velocity v0 throttle m f)
    unfolding calculate_velocity
    calculate_velocity_returns v0 throttle f =
        let (a, e) = is_some-value (div (of_int throttle) m) (divides (of_int throttle)) in
        (mul (add v0 a) (sub (of_int (pos 1)) f), rw e refl, tt)

    distance_loop_returns :
        (total velocity : F) (throttles : List ℤ) (f : F)
        → IsReturn (λ (r : F × F). Unit {0}) (distance_loop total velocity throttles m f)
    unfolding distance_loop
    distance_loop_returns total velocity [] f = ((total, velocity), refl, tt)
    distance_loop_returns total velocity (throttle ∷ throttles) f =
        let (v, e, _) = calculate_velocity_returns velocity throttle f in
        rw (e, distance_loop) (distance_loop_returns (add total v) v throttles f)

  -- Where no division by the mass fails, every sequence has a fitness, and its length penalty is its
  -- length.
  pub fitness_returns :
      (input : ThrottleCalculationInput fl) (config : GeneticConfiguration fl) (throttles : List ℤ)
      → ((a : F) → is_some (div a input.mass) ≡ true)
      → IsReturn
          (λ (s : FitnessScore fl). s.length_penalty ≡ length throttles)
          (fitness input config throttles)
  unfolding fitness calculate_total_distance
  fitness_returns input config throttles divides =
      let (r, e, _) =
        distance_loop_returns input.mass divides (of_int (pos 0)) input.v0 throttles
          input.friction in
      (score_of input config throttles r.0 r.1, rw e refl, refl)
