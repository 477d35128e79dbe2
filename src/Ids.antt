-- ===== src/Ids.antt =====
-- `justificationSetID` of core/engine.go: the text "%s_jset_%d".
pub mod Injective
use Prim.Native.String.{◌++◌ as concat}
use velarix.Prelude.{◌≡◌, refl, ℕ, zero, suc, ◌/◌, ◌%◌, String, ltb, if◌then◌else◌}

unfoldable pub digit : ℕ → String
digit zero = "0"
digit (suc zero) = "1"
digit (suc (suc zero)) = "2"
digit (suc (suc (suc zero))) = "3"
digit (suc (suc (suc (suc zero)))) = "4"
digit (suc (suc (suc (suc (suc zero))))) = "5"
digit (suc (suc (suc (suc (suc (suc zero)))))) = "6"
digit (suc (suc (suc (suc (suc (suc (suc zero))))))) = "7"
digit (suc (suc (suc (suc (suc (suc (suc (suc zero)))))))) = "8"
digit _ = "9"

-- The decimal form of `n`, for fuel above `n`.
unfoldable pub decimal_from : ℕ → ℕ → String
unfolding digit
decimal_from zero n = ""
decimal_from (suc fuel) n =
    let front = decimal_from fuel (n / 10) in
    if ltb n 10 then digit n else concat front (digit (n % 10))

unfoldable pub justification_set_id : String → ℕ → String
unfolding decimal_from
justification_set_id fact_id index =
    concat fact_id (concat "_jset_" (decimal_from (suc index) index))

justification_set_id_runs : justification_set_id "a" 120 ≡ "a_jset_120"
unfolding justification_set_id
justification_set_id_runs = refl
