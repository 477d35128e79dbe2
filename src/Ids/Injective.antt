-- ===== src/Ids/Injective.antt =====
-- A justification set's id determines the fact's id and the index.
use Prim.Native.Char.{code}
use Prim.Native.String.{◌++◌ as concat}
use Prim.Native.String.append
use text.Mathlib.TextEquality.{Char-path}
use mathlib.Core.List.{append_assoc, append_cancel_right}
use velarix.Prelude.{
  ◌≡◌, refl, sym, ap, ◌∙◌, ℕ, zero, suc, ◌+◌, ◌-◌, ◌*◌, ◌/◌, ◌%◌, ◌≤◌, ◌<◌, String, ltb, ltb→lt,
  eqb, if◌then◌else◌, List, [], ◌∷◌, ◌++◌, Option, none, some, codes, arith, Bool-cases, inl, inr,
  All,
}
use velarix.Ids.{digit, decimal_from, justification_set_id}

codes-concat : (s t : String) → codes (concat s t) ≡ codes s ++ codes t
codes-concat String.[] t = ap codes (append.nil t)
codes-concat (String.◌∷◌ c s) t =
    ap codes (append.cons c s t) ∙ ap (◌∷◌ (code c)) (codes-concat s t)

codes_injective : (s t : String) → codes s ≡ codes t → s ≡ t
codes_injective String.[] String.[] h = refl
codes_injective String.[] (String.◌∷◌ c t) h = cc
codes_injective (String.◌∷◌ c s) String.[] h = cc
codes_injective (String.◌∷◌ c s) (String.◌∷◌ d t) h =
    cc (Char-path c d (ground arith), codes_injective s t (ground arith))

-- The text before and behind the last underscore.
split_last : List ℕ → Option (List ℕ × List ℕ)
split_last [] = none
split_last (c ∷ cs) = elim (split_last cs) [
  | some (a, b) ↦ some (c ∷ a, b)
  | none ↦ if eqb c b'_' then some ([], cs) else none
]

abbrev IsDigit : ℕ → Type 0
IsDigit c = (48 ≤ c) × (c < 58)

split_last-digits : (d : List ℕ) → All IsDigit d → split_last d ≡ none
unfolding split_last
split_last-digits [] h = refl
split_last-digits (c ∷ cs) h = rw (split_last-digits cs h.1) (ground arith)

split_last-append : (a d : List ℕ) → All IsDigit d → split_last (a ++ b'_' ∷ d) ≡ some (a, d)
unfolding split_last
split_last-append [] d h = rw (split_last-digits d h)
split_last-append (c ∷ a) d h = rw (split_last-append a d h)

value_from : ℕ → List ℕ → ℕ
value_from acc [] = acc
value_from acc (c ∷ cs) = value_from (acc * 10 + (c - 48)) cs

value_from-append :
    (acc : ℕ) (xs : List ℕ) (d : ℕ)
    → value_from acc (xs ++ d ∷ []) ≡ value_from acc xs * 10 + (d - 48)
unfolding value_from
value_from-append acc [] d = refl
value_from-append acc (x ∷ xs) d = value_from-append (acc * 10 + (x - 48)) xs d

codes-digit : (d : ℕ) → d < 10 → codes (digit d) ≡ (48 + d) ∷ []
unfolding digit
codes-digit zero h = refl
codes-digit (suc zero) h = refl
codes-digit (suc (suc zero)) h = refl
codes-digit (suc (suc (suc zero))) h = refl
codes-digit (suc (suc (suc (suc zero)))) h = refl
codes-digit (suc (suc (suc (suc (suc zero))))) h = refl
codes-digit (suc (suc (suc (suc (suc (suc zero)))))) h = refl
codes-digit (suc (suc (suc (suc (suc (suc (suc zero))))))) h = refl
codes-digit (suc (suc (suc (suc (suc (suc (suc (suc zero)))))))) h = refl
codes-digit (suc (suc (suc (suc (suc (suc (suc (suc (suc zero))))))))) h = refl
codes-digit (suc (suc (suc (suc (suc (suc (suc (suc (suc (suc n)))))))))) h = absurd (omega arith)

All-append {ℓ κ} :
    {A : Type ℓ} (Q : A → Type κ) (front back : List A)
    → All Q back
    → All Q front
    → All Q (front ++ back)
All-append Q [] back last first = last
All-append Q (c ∷ front) back last (here, first) = (here, All-append Q front back last first)

decimal_lem :
    (fuel n : ℕ)
    → n < fuel
    → All IsDigit (codes (decimal_from fuel n)) × (value_from 0 (codes (decimal_from fuel n)) ≡ n)
unfolding decimal_from value_from
decimal_lem zero n h = elim h [ ]
decimal_lem (suc fuel) n h = elim (Bool-cases (ltb n 10)) [
  | inl small ↦
      rw (small, codes-digit n (ground arith))
        (let less = ltb→lt n 10 small in ((omega arith, tt), omega arith))
  | inr big ↦
      rw
        (
          big,
          codes-concat (decimal_from fuel (n / 10)) (digit (n % 10)),
          codes-digit (n % 10) (omega arith),
        )
        (let ih = decimal_lem fuel (n / 10) (ground arith) in
          (
            All-append IsDigit (codes (decimal_from fuel (n / 10))) _ (omega arith, tt) ih.0,
            value_from-append 0 (codes (decimal_from fuel (n / 10))) (48 + n % 10) ∙ omega arith,
          ))
]

-- The id up to its last underscore.
abbrev stem : String → List ℕ
stem f = codes f ++ codes "_jset"

codes-set_id :
    (f : String) (i : ℕ)
    → codes (justification_set_id f i) ≡ stem f ++ b'_' ∷ codes (decimal_from (suc i) i)
unfolding justification_set_id
codes-set_id f i =
    codes-concat f (concat "_jset_" (decimal_from (suc i) i))
    ∙ ap (λ (t : List ℕ). codes f ++ t) (codes-concat "_jset_" (decimal_from (suc i) i))
    ∙ sym (append_assoc (codes f) (codes "_jset") (b'_' ∷ codes (decimal_from (suc i) i)))

split_last-set_id :
    (f : String) (i : ℕ)
    → split_last (codes (justification_set_id f i)) ≡ some (stem f, codes (decimal_from (suc i) i))
split_last-set_id f i =
    ap split_last (codes-set_id f i)
    ∙ split_last-append (stem f) (codes (decimal_from (suc i) i))
        (decimal_lem (suc i) i (omega arith)).0

halves_eq :
    (a b c d : List ℕ)
    → ◌≡◌ {A = Option (List ℕ × List ℕ)} (some (a, b)) (some (c, d))
    → (a ≡ c) × (b ≡ d)
halves_eq a b c d h = ground arith

-- Two justification sets with one id are the same set, by its index, of the same fact.
pub justification_set_id_injective :
    (f g : String) (i j : ℕ)
    → justification_set_id f i ≡ justification_set_id g j
    → (f ≡ g) × (i ≡ j)
justification_set_id_injective f g i j h =
    let (stems, numbers) =
      halves_eq (stem f) (codes (decimal_from (suc i) i)) (stem g) (codes (decimal_from (suc j) j))
        (sym (split_last-set_id f i) ∙ ap (λ s. split_last (codes s)) h ∙ split_last-set_id g j) in
    (
      codes_injective f g (append_cancel_right (codes f) (codes g) (codes "_jset") stems),
      sym (decimal_lem (suc i) i (omega arith)).1
          ∙ ap (value_from 0) numbers
          ∙ (decimal_lem (suc j) j (omega arith)).1,
    )
