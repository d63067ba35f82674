-- ===== src/Genetic/Draws.antt =====
-- What the search uses of Python's `random`: `randint` and `sample`. A source of randomness is the
-- sequence of draws to come, each of which `randint` and `sample` reduce to the range that they need,
-- so that every outcome that `random` allows is that of some sequence.
use movie_reservation_agent.Prelude.{
  ℕ, zero, suc, ◌+◌, ◌-◌, ◌%◌, ◌≤◌, ◌<◌, ◌≡◌, refl, ap, false, Option, none, some, List, [], ◌∷◌,
  arith, ltb, length, if◌then◌else◌, get_elem?, remove_at, get_elem?-lt, length-remove_at, All,
  All-get_elem?, All-remove_at,
}
use movie_reservation_agent.Int.{ℤ, lt, ◌≤ℤ◌, gap, add_ℕ, add_ℕ_bounds, le-lt}
use movie_reservation_agent.Exec.{Exec, ok, value_error, pure, raise, ◌>>=◌}
use movie_reservation_agent.Exec.Returns.{Returns, Returns-bind, Returns-pure}

abbrev pub Draws : Type 0
Draws = ℕ → ℕ

-- The next draw.
unfoldable pub draw : Exec Draws ℕ
draw s = (ok (s 0), λ n. s (suc n))

-- `random.randint(low, high)`
unfoldable pub randint : ℤ → ℤ → Exec Draws ℤ
unfolding draw
randint low high =
    if lt high low
    then raise value_error
    else draw >>= λ d. pure (add_ℕ low (d % suc (gap low high)))

-- `random.randint(low, high)`, of lengths and positions
unfoldable pub randint_ℕ : ℕ → ℕ → Exec Draws ℕ
unfolding draw
randint_ℕ low high =
    if ltb high low then raise value_error else draw >>= λ d. pure (low + d % suc (high - low))

module _ {A : Type 0} where
  -- The element at a position with all the others.
  abbrev picked : Option A → ℕ → List A → Option (A × List A)
  picked none i xs = none
  picked (some x) i xs = some (x, remove_at i xs)

  -- One element of the list, and the others.
  abbrev pick : ℕ → List A → Option (A × List A)
  pick d [] = none
  pick d (x ∷ xs) = let i = d % suc (length xs) in picked (get_elem? (x ∷ xs) i) i (x ∷ xs)

  abbrev next_pick : Option (A × List A) → (List A → Exec Draws (List A)) → Exec Draws (List A)
  next_pick none more = raise value_error
  next_pick (some (x, rest)) more = more rest >>= λ chosen. pure (x ∷ chosen)

  unfoldable pub sample_loop : ℕ → List A → Exec Draws (List A)
  unfolding draw
  sample_loop zero xs = pure []
  sample_loop (suc k) xs = draw >>= λ d. next_pick (pick d xs) (sample_loop k)

  -- `random.sample(population, k)`
  unfoldable pub sample : List A → ℕ → Exec Draws (List A)
  unfolding sample_loop
  sample population k =
      if ltb (length population) k then raise value_error else sample_loop k population

pub draw-Returns : Returns (λ (n : ℕ). Unit {0}) draw
unfolding draw
draw-Returns = record { at = λ s. (s 0, refl, tt) }

pub randint-Returns :
    (low high : ℤ) → low ≤ℤ high → Returns (λ n. (low ≤ℤ n) × (n ≤ℤ high)) (randint low high)
unfolding randint
randint-Returns low high h = rw (le-lt low high h) (
    Returns-bind draw _ draw-Returns
      (λ d _. Returns-pure _ (add_ℕ_bounds low high (d % suc (gap low high)) h (grind arith))))

pub randint_ℕ-Returns :
    (low high : ℕ) → low ≤ high → Returns (λ n. (low ≤ n) × (n ≤ high)) (randint_ℕ low high)
unfolding randint_ℕ
randint_ℕ-Returns low high h =
    let fits : ltb high low ≡ false = ground arith in
    rw fits (
      Returns-bind draw _ draw-Returns
        (λ d _. Returns-pure (low + d % suc (high - low)) (omega arith, grind arith)))

module _ {A : Type 0} (P : A → Type 0) where
  pick_returns :
      (d : ℕ) (x : A) (xs : List A)
      → All P (x ∷ xs)
      → (y : A) × (rest : List A) × (pick d (x ∷ xs) ≡ some (y, rest))
        × P y
        × All P rest
        × (length rest ≡ length xs)
  pick_returns d x xs h =
      let i = d % suc (length xs) in
      let low : i < length (x ∷ xs) = grind arith in
      let (y, found) = get_elem?-lt (x ∷ xs) i low in
      (
        y,
        remove_at i (x ∷ xs),
        ap (λ (o : Option A). picked o i (x ∷ xs)) found,
        All-get_elem? P (x ∷ xs) i h found,
        All-remove_at P i (x ∷ xs) h,
        omega (arith, length-remove_at i (x ∷ xs) low),
      )

  sample_loop-Returns :
      (k : ℕ) (xs : List A)
      → k ≤ length xs
      → All P xs
      → Returns (λ ys. (length ys ≡ k) × All P ys) (sample_loop k xs)
  unfolding sample_loop
  sample_loop-Returns zero xs le h = Returns-pure [] (refl, tt)
  sample_loop-Returns (suc k) [] le h = absurd (omega arith)
  sample_loop-Returns (suc k) (x ∷ xs) le h =
      Returns-bind draw (λ d. next_pick (pick d (x ∷ xs)) (sample_loop k)) draw-Returns
        (λ d _.
          let (y, rest, e, py, prest, len) = pick_returns d x xs h in
          rw e (
            Returns-bind (sample_loop k rest) (λ chosen. pure (y ∷ chosen))
              (sample_loop-Returns k rest (omega (arith, len)) prest)
              (λ ys q. Returns-pure (y ∷ ys) (omega (arith, q.0), (py, q.1)))))

  -- A sample that is not too large is given, is as long as asked for and is from the population.
  pub sample-Returns :
      (population : List A) (k : ℕ)
      → k ≤ length population
      → All P population
      → Returns (λ ys. (length ys ≡ k) × All P ys) (sample population k)
  unfolding sample
  sample-Returns population k le h =
      let fits : ltb (length population) k ≡ false = ground arith in
      rw fits (sample_loop-Returns k population le h)
