-- ===== src/Lib.antt =====
-- A model of the belief engine of Velarix (core/), with the theorems that make its propagation of
-- statuses correct.
--
-- The program keeps facts. A root fact has a status of its own. A derived fact has justification
-- sets, each a list of dependencies on other facts, positive or negated, and it holds when all the
-- dependencies of one of its sets are satisfied. An operation changes one fact and hands it to a
-- work queue, which carries the change to the sets and the facts that depend on it.
--
-- The files, with the code they are about:
--   Prelude, Prelude/Tests, Prelude/Integers, Prelude/Lists, Prelude/Text, Prelude/Maps: Go's
--     integers, slices, texts and maps, as far as the code uses them
--   Env: the clock, the order of a `range` over a map, and the fuel of a work queue
--   Value: the values of a payload or of metadata, and the readings of metadata of
--     core/governance.go, core/metadata_helpers.go and core/dependencies.go (int64FromMetadata)
--   Fact: core/fact.go, and the readings of a fact of core/verification.go
--   Dependencies: core/dependencies.go; Dependencies/Polarity: when a parent satisfies a
--     dependency
--   Ids: justificationSetID of core/engine.go; Ids/Injective: that an id determines its set
--   Cycles: core/cycles.go; Cycles/Sound: that the search ends, and what it finds
--   Engine: the state of core/engine.go, effectiveStatusUnsafe, notify, addChildIndexUnsafe and
--     computeJustificationSetParentsUnsafe; Engine/Propagation: propagate and
--     recomputeChildrenForParentUnsafe; Engine/Outcome: errors and results; Engine/Assertion:
--     AssertFact, and in its folder what its validation says of a fact (Known), the engine with a
--     new fact (Entered), its sets as they are added (Indexing, Building, Sets), the operation as a
--     whole (Settles), the facts that it accepts (Accepted) and the sets that it registers (Shapes,
--     Registered); Engine/Operations: InvalidateRoot,
--     SetRootConfidence, RetractFact, SweepExpiredFacts
--   Engine/Governance: core/governance.go; Engine/Governance/Noted: what a review notes in the
--     metadata; Engine/Governance/Review: what a review writes, and which facts then ask for one
--   Engine/Verification: SetFactVerification and FactClaimKey of core/verification.go
--   Engine/Listeners: Subscribe and Unsubscribe; Engine/Listeners/Independent: that a listener
--     does not disturb the others
--   Engine/Frame, Engine/Kept: what a step leaves as it is
--   Engine/Settled and its folder: the states with nothing left to propagate, and the invariant
--     of the work queue
--   Engine/Rounds, Engine/Rounds/Ends: the load of the work queue, and that the queue empties
--   Engine/Stable, Engine/Operations/Settles: the state between two operations, and the
--     operations that keep it
--   Engine/Belief: what the status of a fact rests on
--   Engine/Snapshot: ToSnapshot, FromSnapshot and buildValidationEngine of core/engine.go;
--     Engine/Snapshot/Validated: facts that pass the validation; Engine/Snapshot/Restored: what is
--     restored
--   Engine/Impact: GetImpact of core/engine.go; Engine/Impact/Growth: what a round adds;
--     Engine/Impact/Dependents: that its simulation ends, and what it reports
--   Engine/Explain: core/explain.go; Engine/Explain/Ancestors: what a fact rests on;
--     Engine/Explain/Chain: what a causal chain names
--   Reasoning: core/reasoning.go; Reasoning/Audit: when a chain of reasoning passes
--   Slice: the choice of facts of api/slice_selection.go; Slice/Bounds: what it bounds. The
--     ranked facts, their dependencies and their sizes are parameters
--   Journal: store/journal.go; Journal/Sessions: that sessions do not disturb each other
--   Global: the subscriptions and the indexes of core/global_truth.go; Global/Index: that the two
--     indexes agree; Global/Reached: the stores that its operations lead to, and
--     Global/Reached/Facts: that they list global facts; Global/Listed, Global/Follow: what a
--     subscription is listed under; Global/Partition: partitionLocked, and in its folder the forest
--     of its union-find (Forest), its trees (Components), the pairs it unites (Edges), the groups
--     it makes (Groups) and the partition as a whole (Correct); Global/Broadcast: AssertGlobal and
--     RetractGlobal; Global/Broadcast/Retracts: a retraction in one engine;
--     Global/Broadcast/Reaches: whom a retraction reaches
--   Consistency: the claims of facts and the contradiction of two facts, of core/consistency.go;
--     Consistency/Symmetric: that their order does not matter; Consistency/Report:
--     CheckConsistency; Consistency/Report/Ids: the ids that it takes; Consistency/Report/Sound:
--     that its issues are contradictions
--   Examples and its folder: the theorems at a small graph, and runs of the engine
--
-- The state of the engine is the record `Engine`, an operation a function from the state to the
-- outcome and the new state. The mutex makes each operation one step. A map is an association list,
-- a set of ids a list without order, a pointer to a fact or a set the entry of the map that holds
-- it. Facts are passed by value: a caller that keeps the pointer it gave to AssertFact is not
-- modelled.
--
-- Bounds. A status is a non-negative multiple of 2 ^ -53, so that the threshold 0.6 and the
-- complement of a status are the ones that the code computes for such numbers between 0 and 1; of
-- other numbers below 0.5, such as 0.1, the code rounds the complement. One operation reads the
-- clock once. The order of each `range` over a map is a parameter with the law that it visits the
-- keys, each of them once. The causal chain of an explanation has the same fuel, and the rank of
-- the fact is enough for it. The `find` of the partition has it too, of which it is proved that one
-- more than the number of pairs to unite is enough. The search for a cycle and the queue of
-- `propagate` have the fuel of Env. Of the queue it is proved: for facts ordered so that the child
-- of a set comes after its parents, with ranks up to `top` and at most `width` sets listed under a
-- fact, the fuel (width + 1) ^ top empties it. A fact that is asserted takes the next rank, and
-- adds its number of sets to the width. That an engine is settled is said of one reading of the
-- clock: a fact that ends and the limit on a parent's age change what the sets count without an
-- operation.
--
-- Not modelled: nil and empty slices are not told apart; letters outside ASCII keep their case but
-- for those that stand for an ASCII letter where case is dropped or ignored; a snapshot holds no
-- nil fact; the embedding, the resolved status and the validation errors of a fact; channels are
-- the buffers of the listeners. Of core/, the dominators and GetStatus, DependencyIDs, the
-- counterfactual of an explanation, vectors, and WaitForVersion and ListGlobalFacts are not
-- modelled, nor are the other stores, the rest of the HTTP interface and the extractor. The
-- encoding of a snapshot and its checksum, the decoding of a line of the journal, the file, and the
-- addition of float64 in an impact report are parameters.
pub mod Prelude
pub mod Env
pub mod Value
pub mod Fact
pub mod Dependencies
pub mod Ids
pub mod Cycles
pub mod Engine
pub mod Examples
pub mod Consistency
pub mod Global
pub mod Journal
pub mod Reasoning
pub mod Slice
