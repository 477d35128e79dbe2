-- ===== src/Env.antt =====
-- What Go's runtime decides in one operation: the reading of the clock (`time.Now().UnixMilli()`,
-- one for each operation) and the order in which each `range` over a map visits the keys. The
-- fuel bounds the rounds of a work queue.
use velarix.Prelude.{◌≡◌, ℕ, String, List, length, contains}

pub record Env : Type 0 where
  pub now : ℕ
  pub fuel : ℕ
  -- the order of the n-th `range` over a map with the keys `l`
  pub range : ℕ → List String → List String
  -- a `range` visits the keys of the map and no others
  pub contains-range :
      (n : ℕ) (l : List String) (k : String) → contains (range n l) k ≡ contains l k
  -- a `range` visits each key once
  pub length-range : (n : ℕ) (l : List String) → length (range n l) ≡ length l
