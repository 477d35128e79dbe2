-- ===== src/Engine/Explain/Ancestors.antt =====
-- What a fact rests on, as explanations follow it.
use velarix.Prelude.{
  String, ◌≡◌, refl, ap, Bool, true, false, ◌||◌, some, List, [], ◌∷◌, ◌++◌, ◌==◌, if◌then◌else◌,
  lookup, has,
}
use velarix.Fact.{Fact}
use velarix.Dependencies.{trim_mark}
use velarix.Engine.{Engine}
use velarix.Engine.Explain.{BeliefExplanation, tokens_of}

unfoldable pub chain_ids : List BeliefExplanation → List String
chain_ids [] = []
chain_ids (belief ∷ chain) = belief.fact_id ∷ chain_ids chain

pub chain_ids-append :
    (c d : List BeliefExplanation) → chain_ids (c ++ d) ≡ chain_ids c ++ chain_ids d
unfolding chain_ids
chain_ids-append [] d = refl
chain_ids-append (b ∷ c) d = ap (λ l. b.fact_id ∷ l) (chain_ids-append c d)

-- Whether a token refers to an id, as the explanation reads it.
unfoldable pub refers : List String → String → Bool
refers [] y = false
refers (token ∷ tokens) y = trim_mark token == y || refers tokens y

-- The tokens that the explanation of a fact follows.
abbrev pub followed : Fact → List String
followed f = if f.is_root then [] else tokens_of f.justification_sets

-- A fact rests on another by a token.
abbrev pub IsParent : Engine → String → String → Type 0
IsParent e x y =
    (f : Fact) × (lookup x e.facts ≡ some f)
    × (refers (followed f) y ≡ true)
    × (has y e.facts ≡ true)

-- What a fact rests on, at any distance.
pub data IsAncestor (e : Engine) : String → String → Type 0 where
  itself : {x : String} → IsAncestor e x x
  further : {x y z : String} → IsAncestor e x y → IsParent e y z → IsAncestor e x z
