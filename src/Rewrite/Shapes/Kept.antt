-- ===== src/Rewrite/Shapes/Kept.antt =====
-- src/n/fl_rewrite.c: all passes together.
use flon.Base.{
  ℕ, zero, suc, ◌≡◌, refl, Bool, true, false, ◌||◌, Option, none, some, List, [], ◌∷◌, String,
  if◌then◌else◌,
}
use flon.Base.Text.{codes}
use flon.Base.Lists.{All}
use flon.Json.{Value, is_tree}
use flon.State.{Node, Msg}
use flon.Rewrite.Built.{Tree, value_of, tree_view, done, Pass, Tools}
use flon.Rewrite.Passes.{
  run_passes, operators, operator_passes, passes, rewrite_tree, Expander, first_item, with_origin,
  flon_rewrite_tree,
}
use flon.Rewrite.Shapes.{IsGood, IsFaithful, Ensures, Ensures-bind, IsKind, IsGood-is_tree}
use flon.Rewrite.Shapes.Heads.{
  rewrite_as_call-IsKind, rewrite_else_if-IsKind, rewrite_post_if-IsKind, rewrite_head_if-IsKind,
  rewrite_set-IsKind,
}
use flon.Rewrite.Shapes.Operators.{rewrite_pinfix-IsKind, rewrite_parens-IsKind}

run_passes-IsKind : (ps : List Pass) → All IsKind ps → IsKind (run_passes ps)
unfolding run_passes
run_passes-IsKind [] a t g = g
run_passes-IsKind (p ∷ ps) a t g =
    Ensures-bind (λ (r : Bool × Tree). IsGood (r.1)) (λ (r : Bool × Tree). IsGood (r.1)) (p t) _
      (a.0 t g)
      (λ r h.
        Ensures-bind (λ (q : Bool × Tree). IsGood (q.1)) (λ (q : Bool × Tree). IsGood (q.1))
          (run_passes ps r.1) (λ q. done (r.0 || q.0, q.1)) (run_passes-IsKind ps a.1 r.1 h)
          (λ q k. k))

module _ (tools : Tools) (ok : IsFaithful tools) where
  operator_passes-IsKind : (ops : List String) → All IsKind (operator_passes tools ops)
  operator_passes-IsKind [] = (rewrite_parens-IsKind tools ok, tt)
  operator_passes-IsKind (op ∷ ops) =
      (rewrite_pinfix-IsKind tools ok (codes op), operator_passes-IsKind ops)

  rewrite_tree-IsKind : (fuel : ℕ) → IsKind (rewrite_tree tools fuel)
  unfolding rewrite_tree
  rewrite_tree-IsKind zero t g = tt
  rewrite_tree-IsKind (suc fuel) t g =
      run_passes-IsKind (passes tools (rewrite_tree tools fuel))
        (
          rewrite_as_call-IsKind tools ok,
          (
            rewrite_else_if-IsKind tools ok,
            (
              rewrite_post_if-IsKind tools ok (rewrite_tree tools fuel) (rewrite_tree-IsKind fuel),
              (
                rewrite_head_if-IsKind tools ok,
                (rewrite_set-IsKind tools ok, operator_passes-IsKind operators),
              ),
            ),
          ),
        )
        t g

  -- What is asked of the message that flon_rewrite_tree gives, and of the node.
  abbrev pub IsRewritten : Node → Bool × Node × Msg → Type 0
  IsRewritten node (b, node', m') =
      (t : Tree) × (m'.tree ≡ some (value_of t))
      × (is_tree (value_of t) ≡ true)
      × (node'.inst ≡ some (tools.to_text t.head))
      × (node'.tree ≡ (if b then some (tools.clone (value_of t)) else node.tree))

  -- Whatever rewriting does, the message has a tree afterwards, the node the head of it for its
  -- instruction, and a copy of it if it was rewritten; this takes a tree whose attributes are no
  -- arrays but trees, once texts are expanded.
  pub flon_rewrite_tree-IsRewritten :
      (ex : Expander) (fuel : ℕ) (node : Node) (m : Msg) (t : Tree)
      → IsGood
          (record t { head = ex.expand_head node m t.head; atts = ex.expand_atts node m t.atts })
      → Ensures (IsRewritten node) (flon_rewrite_tree tools ex fuel node m (value_of t))
  unfolding flon_rewrite_tree tree_view
  flon_rewrite_tree-IsRewritten ex fuel node m t g =
      let t0 = record t {
        head = ex.expand_head node m t.head;
        atts = ex.expand_atts node m t.atts;
      } in
      Ensures-bind (λ (r : Bool × Tree). IsGood (r.1)) (IsRewritten node)
        (rewrite_tree tools fuel t0) _ (rewrite_tree-IsKind fuel t0 g) by_flag
    where
      origin : Option Value
      origin = elim (first_item t.rest) [ none ↦ none | some o ↦ some (tools.clone o) ]

      by_flag :
          (r : Bool × Tree)
          → IsGood (r.1)
          → (let t' =
                if r.0 then record r.1 { rest = with_origin tools origin (r.1).rest } else r.1 in
              IsRewritten node (
                r.0,
                record node {
                  tree = if r.0 then some (tools.clone (value_of t')) else node.tree;
                  inst = some (tools.to_text t'.head);
                },
                record m { tree = some (value_of t') },
              ))
      by_flag (true, u) h =
          let u' = record u { rest = with_origin tools origin u.rest } in
          let good : IsGood u' = record {
            head_is = h.head_is;
            atts_are = h.atts_are;
            line_is = h.line_is;
            children_are = h.children_are;
          } in
          (u', refl, IsGood-is_tree u' good, refl, refl)
      by_flag (false, u) h = (u, refl, IsGood-is_tree u h, refl, refl)
