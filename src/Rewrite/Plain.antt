-- ===== src/Rewrite/Plain.antt =====
-- src/n/fl_rewrite.c: trees that no pass has anything to do for.
use flon.Base.{
  ℕ, suc, ◌≡◌, refl, ap, Bool, true, false, ◌&&◌, Option, none, some, List, [], ◌∷◌, String,
}
use flon.Base.Text.{codes}
use flon.Base.Lists.{All}
use flon.Json.{Value, Fields, is_stringy}
use flon.Rewrite.Built.{Tree, Run, done, ◌>>=◌, Pass, Tools, says, call_tree}
use flon.Rewrite.Heads.{
  rewrite_as_call, turned, rewrite_else_if, split_if, rewrite_post_if, heads_if, rewrite_head_if,
  rewrite_set,
}
use flon.Rewrite.Operators.{
  has_op, no_items, rewrite_infix, rewrite_prefix, rewrite_pinfix, has_tree, rewrite_parens,
}
use flon.Rewrite.Passes.{run_passes, operators, operator_passes, passes, rewrite_tree}

module _ (tools : Tools) where
  -- Neither among the attributes nor, without children, at the head.
  abbrev pub Lacks : Tree → String → Type 0
  Lacks t op =
      (has_op tools (codes op) t.atts ≡ false)
      × ((says tools t.head (codes op) && no_items tools t.children) ≡ false)

  -- The head is an instruction, but no if and no set; among the attributes is no if, no operator
  -- and no tree.
  pub record IsPlain (t : Tree) : Type 0 where
    pub texty : is_stringy t.head ≡ true
    pub known : tools.is_known (tools.to_text t.head) ≡ true
    pub no_else : says tools t.head (codes "else") ≡ false
    pub no_head_if : heads_if tools t.head ≡ false
    pub no_set : says tools t.head (codes "set") ≡ false
    pub no_post_if : split_if tools t.atts ≡ none
    pub no_operator : All (Lacks t) operators
    pub no_tree : has_tree tools t.atts ≡ false

  abbrev Leaves : Tree → Pass → Type 0
  Leaves t p = p t ≡ done (false, t)

  run_passes-Leaves : (t : Tree) (ps : List Pass) → All (Leaves t) ps → Leaves t (run_passes ps)
  unfolding run_passes
  run_passes-Leaves t [] a = refl
  run_passes-Leaves t (p ∷ ps) a = simp (a.0) (simp (run_passes-Leaves t ps a.1) refl)

  rewrite_pinfix-Leaves :
      (t : Tree) (op : String) → Lacks t op → Leaves t (rewrite_pinfix tools (codes op))
  unfolding rewrite_pinfix rewrite_infix rewrite_prefix
  rewrite_pinfix-Leaves t op l = simp (l.0, l.1) refl

  operator_passes-Leaves :
      (t : Tree) (ops : List String)
      → has_tree tools t.atts ≡ false
      → All (Lacks t) ops
      → All (Leaves t) (operator_passes tools ops)
  unfolding rewrite_parens
  operator_passes-Leaves t [] h a = (simp h refl, tt)
  operator_passes-Leaves t (op ∷ ops) h a =
      (rewrite_pinfix-Leaves t op a.0, operator_passes-Leaves t ops h a.1)

  -- Rewriting leaves a plain tree alone.
  pub rewrite_tree-IsPlain :
      (fuel : ℕ) (t : Tree) → IsPlain t → rewrite_tree tools (suc fuel) t ≡ done (false, t)
  unfolding rewrite_tree rewrite_as_call rewrite_else_if rewrite_post_if rewrite_head_if rewrite_set
  rewrite_tree-IsPlain fuel t p = run_passes-Leaves t (passes tools (rewrite_tree tools fuel)) (
    simp (p.texty, p.known) refl,
    (
      simp (p.no_else) refl,
      (
        ap
            (λ (o : Option (Fields × Value × Fields)). elim o as (λ _. Run (Bool × Tree)) [
              | none ↦ done (false, t)
              | some (before, c, behind) ↦
                  rewrite_tree tools fuel (call_tree tools t.line c behind) >>= λ r.
                  done (true, turned tools t before r.1)
            ])
            p.no_post_if,
        (
          simp (p.no_head_if) refl,
          (simp (p.no_set) refl, operator_passes-Leaves t operators p.no_tree p.no_operator),
        ),
      ),
    ),
  )
