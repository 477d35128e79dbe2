-- ===== src/Engine/Outcome.antt =====
-- What an operation of the engine returns, beside the state that it leaves.
use velarix.Prelude.{String, Option, none, some, List}
use velarix.Dependencies.{TokenError}
use velarix.Engine.{Engine}

pub data Error : Type 0 where
  nil_argument different_content no_justification empty_set not_found not_root : Error
  memory_cap_exceeded invalid_review_status invalid_verification_status : Error
  unknown_parent : String → Error
  bad_token : TokenError → Error
  cycle : List String → Error

pub data Outcome : Type 0 where
  done : Outcome
  failed : Error → Outcome
  out_of_fuel : Outcome

-- The end of an operation that propagates: without fuel the state is not known.
abbrev pub settled : Engine → Option Engine → Outcome × Engine
settled e none = (out_of_fuel, e)
settled e (some e') = (done, e')
