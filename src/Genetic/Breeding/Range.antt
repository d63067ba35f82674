-- ===== src/Genetic/Breeding/Range.antt =====
-- What breeding keeps: the throttles of a sequence lie in the range and their number is from 1 to
-- the largest length.
use movie_reservation_agent.Prelude.{
  ℕ, zero, suc, ◌-◌, ◌≤◌, ◌<◌, ◌≡◌, refl, Bool, true, false, List, [], ◌∷◌, ◌++◌, arith, All,
  length, take, drop, remove_at, ltb, Bool-cases, inl, inr, length-take, length-take_le,
  length-append, length-remove_at, All-take, All-drop, All-append, All-remove_at,
}
use movie_reservation_agent.Int.{ℤ, ◌≤ℤ◌}
use movie_reservation_agent.Exec.{pure}
use movie_reservation_agent.Exec.Returns.{Returns, Returns-bind, Returns-pure}
use movie_reservation_agent.Genetic.{Floats}
use movie_reservation_agent.Genetic.Draws.{
  draw, draw-Returns, randint, randint_ℕ, randint-Returns, randint_ℕ-Returns,
}
use movie_reservation_agent.Genetic.Breeding.{
  random_throttles, generate_initial_population, trim, crossover, mutate_one, mutate_loop,
  delete_one, mutate,
}

-- A throttle in the range.
abbrev pub IsThrottle : ℤ × ℤ → ℤ → Type 0
IsThrottle range t = (range.0 ≤ℤ t) × (t ≤ℤ range.1)

-- A sequence that the search may work with.
pub record IsIndividual (range : ℤ × ℤ) (longest : ℕ) (ts : List ℤ) : Type 0 where
  pub in_range : All (IsThrottle range) ts
  pub some_step : 1 ≤ length ts
  pub not_too_long : length ts ≤ longest

module _ (range : ℤ × ℤ) (ordered : range.0 ≤ℤ range.1) where
  random_throttles-Returns :
      (n : ℕ)
      → Returns (λ ts. All (IsThrottle range) ts × (length ts ≡ n)) (random_throttles n range)
  unfolding random_throttles
  random_throttles-Returns zero = Returns-pure [] (tt, refl)
  random_throttles-Returns (suc n) =
      Returns-bind (randint range.0 range.1) _ (randint-Returns range.0 range.1 ordered) (λ t h.
        Returns-bind (random_throttles n range) _ (random_throttles-Returns n)
          (λ ts k. Returns-pure (t ∷ ts) ((h, k.0), omega (arith, k.1))))

  -- The initial population has the size asked for, and each of its sequences is in order.
  pub generate_initial_population-Returns :
      (pop_size max_t : ℕ)
      → 1 ≤ max_t
      → Returns
          (λ pop. All (IsIndividual range max_t) pop × (length pop ≡ pop_size))
          (generate_initial_population pop_size max_t range)
  unfolding generate_initial_population
  generate_initial_population-Returns zero max_t h = Returns-pure [] (tt, refl)
  generate_initial_population-Returns (suc n) max_t h =
      Returns-bind (randint_ℕ 1 max_t) _ (randint_ℕ-Returns 1 max_t h) (λ len b.
        Returns-bind (random_throttles len range) _ (random_throttles-Returns len) (λ ts k.
          Returns-bind (generate_initial_population n max_t range) _
            (generate_initial_population-Returns n max_t h)
            (λ pop q. Returns-pure (ts ∷ pop) (
              (
                record {
                  in_range = k.0;
                  some_step = omega (arith, k.1, b.0);
                  not_too_long = omega (arith, k.1, b.1);
                },
                q.0,
              ),
              omega (arith, q.1),
            ))))

  mutate_one-Returns :
      (fl : Floats) (b : Bool) (t : ℤ)
      → IsThrottle range t
      → Returns (IsThrottle range) (mutate_one fl b range t)
  mutate_one-Returns fl false t h = Returns-pure t h
  mutate_one-Returns fl true t h = randint-Returns range.0 range.1 ordered

module _ (range : ℤ × ℤ) (longest : ℕ) where
  trim-IsIndividual :
      (ts : List ℤ)
      → 1 ≤ longest
      → All (IsThrottle range) ts
      → 1 ≤ length ts
      → IsIndividual range longest (trim longest ts)
  trim-IsIndividual ts one h step = elim (Bool-cases (ltb (length ts) longest)) [
    | inl short ↦ rw short (record { in_range = h; some_step = step; not_too_long = ground arith })
    | inr long ↦
        let enough : longest ≤ length ts = ground arith in
        rw long (record {
          in_range = All-take (IsThrottle range) longest ts h;
          some_step = omega (arith, length-take longest ts enough);
          not_too_long = length-take_le longest ts;
        })
  ]

  -- A child of two sequences in order is in order.
  pub crossover-Returns :
      (p q : List ℤ)
      → 1 ≤ longest
      → IsIndividual range longest p
      → IsIndividual range longest q
      → Returns (IsIndividual range longest) (crossover p q longest)
  unfolding crossover
  crossover-Returns p q one hp hq =
      Returns-bind (randint_ℕ 1 (length p)) _ (randint_ℕ-Returns 1 (length p) hp.some_step) (λ i bi.
        Returns-bind (randint_ℕ 1 (length q)) _ (randint_ℕ-Returns 1 (length q) hq.some_step)
          (λ j bj. Returns-pure (trim longest (take i p ++ drop j q)) (
            trim-IsIndividual (take i p ++ drop j q) one
              (All-append (IsThrottle range) (take i p) (drop j q)
                (All-take (IsThrottle range) i p hp.in_range)
                (All-drop (IsThrottle range) j q hq.in_range))
              (omega (arith, length-append (take i p) (drop j q), length-take i p bi.1, bi.0)))))

  delete_one-Returns :
      (fl : Floats) (b : Bool) (ts : List ℤ)
      → IsIndividual range longest ts
      → Returns (IsIndividual range longest) (delete_one fl b ts)
  delete_one-Returns fl false ts h = Returns-pure ts h
  delete_one-Returns fl true ts h = elim (Bool-cases (ltb 1 (length ts))) [
    | inr one ↦ rw one (Returns-pure ts h)
    | inl more ↦
        let two : 1 < length ts = ground arith in
        let h1 = h.some_step in
        let h2 = h.not_too_long in
        rw more (
          Returns-bind (randint_ℕ 0 (length ts - 1)) (λ i. pure (remove_at i ts))
            (randint_ℕ-Returns 0 (length ts - 1) (omega arith))
            (λ i b.
              let len = length-remove_at i ts (omega (arith, b.1, h1)) in
              Returns-pure (remove_at i ts) (record {
                in_range = All-remove_at (IsThrottle range) i ts h.in_range;
                some_step = omega (arith, len, two);
                not_too_long = omega (arith, len, h2);
              })))
  ]

module _ (fl : Floats) (range : ℤ × ℤ) (longest : ℕ) (ordered : range.0 ≤ℤ range.1)
    (rate : fl.F) where
  mutate_loop-Returns :
      (ts : List ℤ)
      → All (IsThrottle range) ts
      → Returns
          (λ us. All (IsThrottle range) us × (length us ≡ length ts))
          (mutate_loop fl ts range rate)
  unfolding mutate_loop
  mutate_loop-Returns [] h = Returns-pure [] (tt, refl)
  mutate_loop-Returns (t ∷ ts) h = Returns-bind draw _ draw-Returns (λ d _.
      Returns-bind (mutate_one fl (fl.lt (fl.random_of d) rate) range t) _
        (mutate_one-Returns range ordered fl (fl.lt (fl.random_of d) rate) t h.0)
        (λ t' ht.
          Returns-bind (mutate_loop fl ts range rate) _ (mutate_loop-Returns ts h.1)
            (λ ts' k. Returns-pure (t' ∷ ts') ((ht, k.0), omega (arith, k.1)))))

  -- A mutated sequence in order is in order: a deletion leaves at least one throttle.
  pub mutate-Returns :
      (ts : List ℤ)
      → IsIndividual range longest ts
      → Returns (IsIndividual range longest) (mutate fl ts range rate)
  unfolding mutate
  mutate-Returns ts h =
      let h1 = h.some_step in
      let h2 = h.not_too_long in
      Returns-bind (mutate_loop fl ts range rate) _ (mutate_loop-Returns ts h.in_range) (λ us k.
        Returns-bind draw _ draw-Returns (λ d _.
          delete_one-Returns range longest fl (fl.lt (fl.random_of d) rate) us (record {
            in_range = k.0;
            some_step = omega (arith, k.1, h1);
            not_too_long = omega (arith, k.1, h2);
          })))
