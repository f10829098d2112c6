-- ===== src/Rewrite/Passes.antt =====
-- src/n/fl_rewrite.c: rewrite_tree and flon_rewrite_tree.
use flon.Base.{
  ℕ, zero, suc, Bool, false, ◌||◌, Option, none, some, List, [], ◌∷◌, String, if◌then◌else◌,
}
use flon.Base.Text.{codes}
use flon.Json.{Value, Items, Fields, nil, cons}
use flon.State.{Node, Msg}
use flon.Rewrite.Built.{value_of, tree_view, Run, done, crashed, out_of_fuel, ◌>>=◌, Pass, Tools}
use flon.Rewrite.Heads.{
  rewrite_as_call, rewrite_else_if, rewrite_post_if, rewrite_head_if, rewrite_set,
}
use flon.Rewrite.Operators.{rewrite_pinfix, rewrite_parens}

-- `rw |= pass(node, msg, tree)` for each
unfoldable pub run_passes : List Pass → Pass
run_passes [] t = done (false, t)
run_passes (p ∷ ps) t = p t >>= λ r. (run_passes ps r.1 >>= λ q. done (r.0 || q.0, q.1))

-- In precedence order.
abbrev pub operators : List String
operators =
    "or" ∷ "and" ∷ "==" ∷ "!=" ∷ "=~" ∷ "!~" ∷ ">" ∷ ">=" ∷ "<" ∷ "<=" ∷ "+" ∷ "-" ∷ "*" ∷ "/" ∷ "%"
    ∷ []

module _ (tools : Tools) where
  abbrev pub operator_passes : List String → List Pass
  operator_passes [] = rewrite_parens tools ∷ []
  operator_passes (op ∷ ops) = rewrite_pinfix tools (codes op) ∷ operator_passes ops

  abbrev pub passes : Pass → List Pass
  passes inner =
      rewrite_as_call tools
      ∷ rewrite_else_if tools
      ∷ rewrite_post_if tools inner
      ∷ rewrite_head_if tools
      ∷ rewrite_set tools
      ∷ operator_passes operators

  -- rewrite_tree(node, msg, tree), at most so deep
  unfoldable pub rewrite_tree : ℕ → Pass
  unfolding run_passes
  rewrite_tree zero t = out_of_fuel
  rewrite_tree (suc fuel) t = run_passes (passes (rewrite_tree fuel)) t

-- expand(v, node, msg), on the head and on the attributes of a tree.
pub record Expander : Type 0 where
  pub expand_head : Node → Msg → Value → Value
  pub expand_atts : Node → Msg → Fields → Fields

abbrev pub first_item : Items → Option Value
first_item nil = none
first_item (cons v vs) = some v

-- The origin of a tree that was rewritten, at its end.
abbrev pub with_origin : Tools → Option Value → Items → Items
with_origin tools none rest = rest
with_origin tools (some o) nil = cons (tools.clone o) nil
with_origin tools (some o) (cons v vs) = cons v vs

-- flon_rewrite_tree(node, msg), for a message that has the tree; `none` for a tree that lacks one
-- of its four parts, where the C code reads through a null pointer.
unfoldable pub flon_rewrite_tree :
    Tools → Expander → ℕ → Node → Msg → Value → Run (Bool × Node × Msg)
unfolding rewrite_tree tree_view
flon_rewrite_tree tools ex fuel node m v = elim (tree_view v) [
  | none ↦ crashed
  | some t ↦
      let expanded = record t {
        head = ex.expand_head node m t.head;
        atts = ex.expand_atts node m t.atts;
      } in
      let origin : Option Value = elim (first_item t.rest) [
        | none ↦ none
        | some o ↦ some (tools.clone o)
      ] in
      rewrite_tree tools fuel expanded >>= λ r.
      let t' = if r.0 then record r.1 { rest = with_origin tools origin (r.1).rest } else r.1 in
      done (
        r.0,
        record node {
          tree = if r.0 then some (tools.clone (value_of t')) else node.tree;
          inst = some (tools.to_text t'.head);
        },
        record m { tree = some (value_of t') },
      )
]
