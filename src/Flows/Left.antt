-- ===== src/Flows/Left.antt =====
-- The children of a sequence that are still to run.
use flon.Base.{ℕ, suc, ◌+◌, ◌<◌, ◌≡◌, refl, ◌∙◌, ap, arith, none, some}
use flon.Json.{at}
use flon.Flows.{Flow, Flows, none_left, then, count, flow_tree, flow_trees}

-- What is left of the children of a sequence from an index on.
abbrev pub LeftAt : Flows → ℕ → Flows → Type 0
LeftAt all i rest =
    ((j : ℕ) → at (flow_trees all) (i + j) ≡ at (flow_trees rest) j) × (i + count rest ≡ count all)

pub LeftAt-all : (all : Flows) → LeftAt all 0 all
LeftAt-all all = (λ j. ap (at (flow_trees all)) (omega arith), omega arith)

pub LeftAt-here :
    (all : Flows) (i : ℕ) (f : Flow) (fs : Flows)
    → LeftAt all i (then f fs)
    → at (flow_trees all) i ≡ some (flow_tree f)
unfolding at flow_trees
LeftAt-here all i f fs h = ap (at (flow_trees all)) (omega arith) ∙ h.0 0

pub LeftAt-next :
    (all : Flows) (i : ℕ) (f : Flow) (fs : Flows) → LeftAt all i (then f fs) → LeftAt all (i + 1) fs
unfolding at flow_trees count
LeftAt-next all i f fs h =
    (λ j. ap (at (flow_trees all)) (omega arith) ∙ h.0 (suc j), omega (arith, h.1))

pub LeftAt-end : (all : Flows) (i : ℕ) → LeftAt all i none_left → at (flow_trees all) i ≡ none
unfolding at flow_trees
LeftAt-end all i h = ap (at (flow_trees all)) (omega arith) ∙ h.0 0

pub at-count : (all : Flows) → at (flow_trees all) (count all) ≡ none
unfolding at flow_trees count
at-count none_left = refl
at-count (then f fs) = at-count fs

pub LeftAt-count : (all : Flows) (i : ℕ) → LeftAt all i none_left → i ≡ count all
unfolding count
LeftAt-count all i h = omega (arith, h.1)

pub LeftAt-below :
    (all : Flows) (i : ℕ) (f : Flow) (fs : Flows) → LeftAt all i (then f fs) → i < count all
unfolding count
LeftAt-below all i f fs h = omega (arith, h.1)
