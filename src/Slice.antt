-- ===== src/Slice.antt =====
-- api/slice_selection.go: which of the ranked facts a slice takes, by their number and their size. The
-- ranking, the dependencies of a fact that may be shown and the size of a fact are parameters.
pub mod Bounds
use velarix.Prelude.{
  ℕ, ◌-◌, String, Bool, true, false, ◌&&◌, not, List, [], ◌∷◌, ◌++◌, ℤ, pos, negsuc, ltb, leb, ltbℤ,
  length, if◌then◌else◌, contains,
}
use velarix.Fact.{Fact}

-- The part of sliceSelectionOptions that the loop reads.
pub record SliceOptions : Type 0 where
  pub max_facts : ℕ
  pub max_chars : ℕ
  pub include_dependencies : Bool

-- `selected`, `selectedIDs` and `remainingChars`
pub record Selection : Type 0 where
  pub selected : List Fact
  pub selected_ids : List String
  pub remaining_chars : ℤ

-- remaining - estimated, for a positive rest
unfoldable pub spend : ℤ → ℕ → ℤ
spend (pos n) estimated =
    if leb estimated n then pos (n - estimated) else negsuc (estimated - n - 1)
spend (negsuc n) estimated = negsuc n

module _ (opts : SliceOptions) (estimate : Fact → ℕ) where
  -- The size is asked for only while something is left, and not for the first fact.
  unfoldable pub too_large : Selection → Fact → Bool
  too_large s f =
      ltbℤ (pos 0) s.remaining_chars
      && ltb 0 (length s.selected)
      && ltbℤ s.remaining_chars (pos (estimate f))

  unfoldable pub append_fact : Selection → Fact → Selection
  unfolding spend
  append_fact s f = record {
    selected = s.selected ++ f ∷ [];
    selected_ids = f.id ∷ s.selected_ids;
    remaining_chars =
        if ltbℤ (pos 0) s.remaining_chars
        then spend s.remaining_chars (estimate f)
        else s.remaining_chars;
  }

  -- addFact: whether to go on, and the selection
  unfoldable pub add_fact : Selection → Fact → Bool × Selection
  unfolding too_large append_fact
  add_fact s f =
      if contains s.selected_ids f.id
      then (true, s)
      else if leb opts.max_facts (length s.selected)
      then (false, s)
      else if too_large s f
      then (false, s)
      else (true, append_fact s f)

  -- The inner loop, over the dependencies of a fact.
  unfoldable pub add_dependencies : List Fact → Selection → Selection
  unfolding add_fact
  add_dependencies [] s = s
  add_dependencies (f ∷ deps) s =
      let r = add_fact s f in let rest = add_dependencies deps r.1 in if r.0 then rest else r.1

  module _ (dependencies : Fact → List Fact) where
    -- What follows the call of `addFact` for a candidate.
    unfoldable pub with_dependencies : Fact → Selection → Selection
    unfolding add_dependencies
    with_dependencies f s =
        if opts.include_dependencies then add_dependencies (dependencies f) s else s

    unfoldable pub is_full : Selection → Bool
    is_full s = opts.include_dependencies && leb opts.max_facts (length s.selected)

    -- The outer loop, over the ranked facts.
    unfoldable pub select_from : List Fact → Selection → Selection
    unfolding add_fact with_dependencies is_full
    select_from [] s = s
    select_from (f ∷ ranked) s =
        let r = add_fact s f in
        let s' = with_dependencies f r.1 in
        let rest = select_from ranked s' in if not r.0 then r.1 else if is_full s' then s' else rest

    -- selectBeliefSlice, from the ranked facts on
    unfoldable pub select_belief_slice : List Fact → Selection
    unfolding select_from
    select_belief_slice ranked =
        select_from ranked
          (record { selected = []; selected_ids = []; remaining_chars = pos opts.max_chars })
