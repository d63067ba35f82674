-- ===== src/Audit/Identifiers.antt =====
-- The checks of texts in llm_agent/llm_agent/application/audit/authentication.py.
use movie_reservation_agent.Prelude.{
  ℕ, zero, suc, String, Bool, true, false, ◌&&◌, ◌||◌, not, Option, none, some, List, [], ◌∷◌, ◌++◌,
  length, codes, ltb, ◌==◌, if◌then◌else◌,
}

abbrev pub between : ℕ → ℕ → ℕ → Bool
between low high c = not (ltb c low) && not (ltb high c)

-- `[A-Za-z0-9._:/@-]`
abbrev pub is_safe_char : ℕ → Bool
is_safe_char c =
    between b'A' b'Z' c
    || (between b'a' b'z' c
        || (between b'0' b'9' c
            || (c == b'.'
                || (c == b'_' || (c == b':' || (c == b'/' || (c == b'@' || c == b'-')))))))

-- `[0-9a-f]`
abbrev pub is_hex : ℕ → Bool
is_hex c = between b'0' b'9' c || between b'a' b'f' c

abbrev pub all_of : (ℕ → Bool) → List ℕ → Bool
all_of test [] = true
all_of test (c ∷ cs) = test c && all_of test cs

-- A pattern of one class for each character.
abbrev pub fits : List (ℕ → Bool) → List ℕ → Bool
fits [] [] = true
fits (test ∷ tests) (c ∷ cs) = test c && fits tests cs
fits _ _ = false

abbrev pub times : ℕ → (ℕ → Bool) → List (ℕ → Bool)
times zero test = []
times (suc n) test = test ∷ times n test

-- `_SAFE_ID`
abbrev pub is_safe_id : List ℕ → Bool
is_safe_id cs = all_of is_safe_char cs && between 1 128 (length cs)

-- `_EVENT_ID`
abbrev pub event_id_classes : List (ℕ → Bool)
event_id_classes =
    times 8 is_hex
    ++ (λ c. c == b'-') ∷ times 4 is_hex
    ++ (λ c. c == b'-') ∷ (λ c. c == b'4') ∷ times 3 is_hex
    ++ (λ c. c == b'-')
      ∷ (λ c. c == b'8' || (c == b'9' || (c == b'a' || c == b'b')))
      ∷ times 3 is_hex
    ++ (λ c. c == b'-') ∷ times 12 is_hex

abbrev pub kept_if : Bool → String → Option String
kept_if b s = if b then some s else none

-- `safe_identifier`
unfoldable pub safe_identifier : Option String → Option String
safe_identifier none = none
safe_identifier (some value) = kept_if (is_safe_id (codes value)) value

-- `safe_header`: the empty text is not one either.
unfoldable pub safe_header : Option String → Option String
safe_header none = none
safe_header (some value) =
    kept_if (between 1 512 (length (codes value)) && all_of (between 32 126) (codes value)) value
