-- ===== src/Flows.antt =====
-- Flows that are sequences of sequences, of noop and of val, and what they mean: the trees that
-- src/fl_executor.c runs for them, and what becomes of the payload.
pub mod Nodes
pub mod Trees
pub mod Turns
pub mod Leaves
pub mod Steps
pub mod Sequences
pub mod Rounds
pub mod Places
pub mod Children
pub mod Starts
pub mod Left
pub mod Launches
pub mod Runs
pub mod Launch
pub mod Ends
pub mod Whole
pub mod Plain
pub mod Rewriting
pub mod Refined
mod Tests
use flon.Base.{Bool, true, false, ◌≡◌, ℕ, zero, suc, ◌+◌, ◌<◌, Option, some, none, List, [], ◌∷◌}
use flon.Base.Text.{Text, codes}
use flon.Base.Hex.{u32}
use flon.Json.{Value, null, bool, Items, Fields, arr, obj, num, sym, nil, cons, end, field, put}

-- Each has the number of its line.
mutual
  pub data Flow : Type 0 where
    noop : Text → Flow
    val : Text → Value → Flow
    sequence : Text → Flows → Flow

  pub data Flows : Type 0 where
    none_left : Flows
    then : Flow → Flows → Flows

unfoldable pub count : Flows → ℕ
count none_left = 0
count (then f fs) = suc (count fs)

unfoldable pub head_of : Flow → Text
head_of (noop line) = codes "noop"
head_of (val line v) = codes "val"
head_of (sequence line fs) = codes "sequence"

abbrev pub tree_with : Text → Fields → Text → Items → Value
tree_with head atts line children =
    arr (cons (sym head) (cons (obj atts) (cons (num line) (cons (arr children) nil))))

-- The tree of a flow.
unfoldable mutual
  pub flow_tree : Flow → Value
  flow_tree (noop line) = tree_with (codes "noop") end line nil
  flow_tree (val line v) = tree_with (codes "val") (field (codes "_0") v end) line nil
  flow_tree (sequence line fs) = tree_with (codes "sequence") end line (flow_trees fs)

  pub flow_trees : Flows → Items
  flow_trees none_left = nil
  flow_trees (then f fs) = cons (flow_tree f) (flow_trees fs)

-- What a flow makes of the fields of a payload: the values pass through `ret`, from left to right.
unfoldable mutual
  pub eval : Flow → Fields → Fields
  eval (noop line) p = p
  eval (val line v) p = put (codes "ret") v p
  eval (sequence line fs) p = eval_all fs p

  pub eval_all : Flows → Fields → Fields
  eval_all none_left p = p
  eval_all (then f fs) p = eval_all fs (eval f p)

-- How many messages a flow takes: two for a leaf; for a sequence one at its start, one after each
-- child, and one to itself if it has none.
unfoldable mutual
  pub steps : Flow → ℕ
  steps (noop line) = 2
  steps (val line v) = 2
  steps (sequence line none_left) = 2
  steps (sequence line (then f fs)) = (1 + (steps f + steps_all fs)) + 1

  -- The messages up to the one of the last child.
  pub steps_all : Flows → ℕ
  steps_all none_left = 0
  steps_all (then f fs) = 1 + (steps f + steps_all fs)

-- A value that is no text, no array and no object.
unfoldable pub is_literal : Value → Bool
is_literal null = true
is_literal (bool b) = true
is_literal (num t) = true
is_literal v = false

-- The values are literals, and no sequence has more children than an index has room for.
unfoldable mutual
  pub Fits : Flow → Type 0
  Fits (noop line) = Unit
  Fits (val line v) = is_literal v ≡ true
  Fits (sequence line fs) = (count fs < u32) × AllFit fs

  pub AllFit : Flows → Type 0
  AllFit none_left = Unit
  AllFit (then f fs) = Fits f × AllFit fs
