-- ===== src/Value.antt =====
-- The values of `Any`-typed payloads: what JSON decodes to.
use movie_reservation_agent.Prelude.{ℕ, String, Bool}
use movie_reservation_agent.Int.{ℤ}

-- A `float`: `finite n d` is the number n / (d + 1), and `infinite true` is negative.
pub data Real : Type 0 where
  finite : ℤ → ℕ → Real
  infinite : Bool → Real
  nan : Real

mutual
  pub data Value : Type 0 where
    null : Value
    bool : Bool → Value
    num : ℤ → Value
    real : Real → Value
    str : String → Value
    list : Items → Value
    dict : Fields → Value

  pub data Items : Type 0 where
    nil : Items
    cons : Value → Items → Items

  pub data Fields : Type 0 where
    end : Fields
    field : String → Value → Fields → Fields
