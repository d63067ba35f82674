-- ===== src/Dict.antt =====
-- Python's `dict`, with keys in insertion order, keyed by a `UUID`. A UUID is only compared, so
-- it is a natural number.
use movie_reservation_agent.Prelude.{
  ℕ, ◌≡◌, refl, ◌≢◌, Bool, true, false, Option, none, some, List, [], ◌∷◌, arith, ◌==◌,
  if◌then◌else◌, is_some, ◌||◌,
}

abbrev pub Uuid : Type 0
Uuid = ℕ

abbrev pub Dict {ℓ} : Type ℓ → Type ℓ
Dict V = List (Uuid × V)

-- `k in ks`, for a list of keys.
abbrev pub mem_key : Uuid → List Uuid → Bool
mem_key k [] = false
mem_key k (j ∷ ks) = j == k || mem_key k ks

module _ {ℓ} {V : Type ℓ} where
  -- `d.get(k)`
  unfoldable pub lookup : Uuid → Dict V → Option V
  lookup k [] = none
  lookup k ((j, v) ∷ d) = if j == k then some v else lookup k d

  -- `d[k] = v`: an old key keeps its place, a new one comes last.
  unfoldable pub insert : Uuid → V → Dict V → Dict V
  insert k v [] = (k, v) ∷ []
  insert k v ((j, w) ∷ d) = if j == k then (j, v) ∷ d else (j, w) ∷ insert k v d

  -- The keys, in the order of `d.items()`.
  unfoldable pub keys : Dict V → List Uuid
  keys [] = []
  keys ((j, w) ∷ d) = j ∷ keys d

  -- `k in d`
  abbrev pub contains : Uuid → Dict V → Bool
  contains k d = is_some (lookup k d)

  pub lookup-empty : (k : Uuid) → lookup k [] ≡ none
  unfolding lookup
  lookup-empty k = refl

  pub lookup-insert :
      (k j : Uuid) (v : V) (d : Dict V)
      → lookup j (insert k v d) ≡ (if k == j then some v else lookup j d)
  unfolding lookup insert
  lookup-insert k j v [] = ground arith
  lookup-insert k j v ((i, w) ∷ d) = ground (arith, lookup-insert k j v d)

  pub lookup-insert_self : (k : Uuid) (v : V) (d : Dict V) → lookup k (insert k v d) ≡ some v
  lookup-insert_self k v d = ground (arith, lookup-insert k k v d)

  pub lookup-insert_ne :
      (k j : Uuid) (v : V) (d : Dict V) → k ≢ j → lookup j (insert k v d) ≡ lookup j d
  lookup-insert_ne k j v d h = ground (arith, lookup-insert k j v d)

  -- A key that is found is listed.
  pub mem_key-keys :
      (k : Uuid) (v : V) (d : Dict V) → lookup k d ≡ some v → mem_key k (keys d) ≡ true
  unfolding lookup keys
  mem_key-keys k v [] h = ground arith
  mem_key-keys k v ((j, w) ∷ d) h = ground (arith, mem_key-keys k v d)

  -- Writing to a key that is there leaves the order of the keys alone.
  pub keys-insert_old :
      (k : Uuid) (v w : V) (d : Dict V) → lookup k d ≡ some w → keys (insert k v d) ≡ keys d
  unfolding lookup insert keys
  keys-insert_old k v w [] h = ground arith
  keys-insert_old k v w ((j, x) ∷ d) h = ground (arith, keys-insert_old k v w d)
