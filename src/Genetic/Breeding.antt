-- ===== src/Genetic/Breeding.antt =====
-- `generate_initial_population`, `crossover` and `mutate` of genetic.py. `mutate` writes into the
-- list that it is given, which is always a new one that `crossover` has made of slices.
pub mod Range
use movie_reservation_agent.Prelude.{
  ℕ, zero, suc, ◌-◌, Bool, true, false, List, [], ◌∷◌, ◌++◌, length, take, drop, remove_at, ltb,
  if◌then◌else◌,
}
use movie_reservation_agent.Int.{ℤ}
use movie_reservation_agent.Exec.{Exec, pure, ◌>>=◌}
use movie_reservation_agent.Genetic.{Floats}
use movie_reservation_agent.Genetic.Draws.{Draws, draw, randint, randint_ℕ}

-- `[random.randint(throttle_range[0], throttle_range[1]) for _ in range(length)]`
unfoldable pub random_throttles : ℕ → ℤ × ℤ → Exec Draws (List ℤ)
random_throttles zero throttle_range = pure []
random_throttles (suc n) throttle_range = randint throttle_range.0 throttle_range.1 >>= λ t.
    random_throttles n throttle_range >>= λ ts. pure (t ∷ ts)

-- `generate_initial_population`
unfoldable pub generate_initial_population : ℕ → ℕ → ℤ × ℤ → Exec Draws (List (List ℤ))
unfolding random_throttles
generate_initial_population zero max_t throttle_range = pure []
generate_initial_population (suc n) max_t throttle_range = randint_ℕ 1 max_t >>= λ length.
    random_throttles length throttle_range >>= λ throttles.
    generate_initial_population n max_t throttle_range >>= λ population.
    pure (throttles ∷ population)

-- The cut at the end of `crossover`.
abbrev pub trim : ℕ → List ℤ → List ℤ
trim max_allowed_length child =
    if ltb (length child) max_allowed_length then child else take max_allowed_length child

-- `crossover`
unfoldable pub crossover : List ℤ → List ℤ → ℕ → Exec Draws (List ℤ)
crossover parent1 parent2 max_allowed_length = randint_ℕ 1 (length parent1) >>= λ crossover_point1.
    randint_ℕ 1 (length parent2) >>= λ crossover_point2.
    pure (trim max_allowed_length (take crossover_point1 parent1 ++ drop crossover_point2 parent2))

module _ (fl : Floats) where
  open fl use {F, lt, random_of}

  -- One throttle of the loop of `mutate`, once it is known whether it changes.
  abbrev pub mutate_one : Bool → ℤ × ℤ → ℤ → Exec Draws ℤ
  mutate_one false throttle_range t = pure t
  mutate_one true throttle_range t = randint throttle_range.0 throttle_range.1

  -- The loop of `mutate`
  unfoldable pub mutate_loop : List ℤ → ℤ × ℤ → F → Exec Draws (List ℤ)
  mutate_loop [] throttle_range mutation_rate = pure []
  mutate_loop (t ∷ ts) throttle_range mutation_rate = draw >>= λ d.
      mutate_one (lt (random_of d) mutation_rate) throttle_range t >>= λ t'.
      mutate_loop ts throttle_range mutation_rate >>= λ ts'. pure (t' ∷ ts')

  -- The deletion at the end of `mutate`, once it is known whether chance wants it.
  abbrev pub delete_one : Bool → List ℤ → Exec Draws (List ℤ)
  delete_one false ts = pure ts
  delete_one true ts =
      if ltb 1 (length ts)
      then (randint_ℕ 0 (length ts - 1) >>= λ delete_pos. pure (remove_at delete_pos ts))
      else pure ts

  -- `mutate`
  unfoldable pub mutate : List ℤ → ℤ × ℤ → F → Exec Draws (List ℤ)
  unfolding mutate_loop
  mutate throttle_sequence throttle_range mutation_rate =
      mutate_loop throttle_sequence throttle_range mutation_rate >>= λ ts.
      draw >>= λ d. delete_one (lt (random_of d) mutation_rate) ts
