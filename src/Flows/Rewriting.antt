-- ===== src/Flows/Rewriting.antt =====
-- src/n/fl_rewrite.c: flon_rewrite_tree on the tree of a flow, as the executor calls it.
use flon.Base.{ℕ, suc, ◌≡◌, refl, ◌∙◌, ap, sym, Bool, false, Option, none, some}
use flon.Base.Text.{Text, codes, has_byte}
use flon.Ids.{Grammar}
use flon.Json.{Value, Items, Fields, num, nil, end, field}
use flon.State.{Node, Msg, Exec}
use flon.Inst.Table.{Others}
use flon.Executor.{Rewriter}
use flon.Rewrite.Built.{Tree, value_of, Run, done, Tools, tree_view}
use flon.Rewrite.Passes.{Expander, flon_rewrite_tree}
use flon.Rewrite.Plain.{IsPlain, rewrite_tree-IsPlain}
use flon.Flows.{Flow, noop, val, sequence, head_of, flow_tree, flow_trees, Fits}
use flon.Flows.Leaves.{KnowsFlows}
use flon.Flows.Plain.{ReadsFlows, FewAtts, no_atts, one_att, flow-IsPlain}

abbrev after_rewriting : Node × Msg → Run (Bool × Node × Msg) → Node × Msg
after_rewriting before (done (rewritten, v, m)) = (v, m)
after_rewriting before _ = before

-- flon_rewrite_tree where the executor calls it. Where it reads through a null pointer, the process
-- ends; here the node and the message are left as they are.
unfoldable pub rewriter_of : (Exec → Node → Tools) → (Exec → Expander) → ℕ → Rewriter
rewriter_of tools ex fuel s node m = elim m.tree [
  | none ↦ (node, m)
  | some v ↦ after_rewriting (node, m) (flon_rewrite_tree (tools s node) (ex s) fuel node m v)
]

-- A tree that expansion leaves alone and that is plain.
rewrites_plain :
    (tools : Tools) (ex : Expander) (fuel : ℕ) (v : Node) (m : Msg) (t : Tree)
    → ex.expand_head v m t.head ≡ t.head
    → ex.expand_atts v m t.atts ≡ t.atts
    → IsPlain tools t
    → flon_rewrite_tree tools ex (suc fuel) v m (value_of t)
      ≡ done (
        false,
        record v { inst = some (tools.to_text t.head) },
        record m { tree = some (value_of t) },
      )
unfolding flon_rewrite_tree tree_view
rewrites_plain tools ex fuel v m t eh ea plain =
    rw (eh, ea, rewrite_tree-IsPlain tools fuel t plain) refl

module _ (tools : Tools) (ex : Expander) (reads : ReadsFlows tools ex) (fuel : ℕ) where
  abbrev part : Text → Fields → Text → Items → Tree
  part h atts line children = record {
    head = Value.sym h;
    atts = atts;
    line = num line;
    children = children;
    rest = nil;
  }

  rewrites :
      (f : Flow) (v : Node) (m : Msg) (t : Tree)
      → t.head ≡ Value.sym (head_of f)
      → ex.expand_atts v m t.atts ≡ t.atts
      → FewAtts t.atts
      → ex.expand_head v m (Value.sym (head_of f)) ≡ Value.sym (head_of f)
      → flon_rewrite_tree tools ex (suc fuel) v m (value_of t)
        ≡ done (false, record v { inst = some (head_of f) }, record m { tree = some (value_of t) })
  rewrites f v m t e ea few eh =
      let head = ap (ex.expand_head v m) e ∙ eh ∙ sym e in
      rewrites_plain tools ex fuel v m t head ea (flow-IsPlain tools ex f t reads e few)
      ∙ ap
          (λ (u : Text).
            done (false, record v { inst = some u }, record m { tree = some (value_of t) }))
          (ap tools.to_text e ∙ reads.text (head_of f))

  -- flon_rewrite_tree on the tree of a flow: nothing is rewritten, and the node has its instruction.
  pub flon_rewrite_tree-flow :
      (v : Node) (m : Msg) (f : Flow)
      → Fits f
      → flon_rewrite_tree tools ex (suc fuel) v m (flow_tree f)
        ≡ done (false, record v { inst = some (head_of f) }, record m { tree = some (flow_tree f) })
  unfolding flow_tree head_of Fits has_byte
  flon_rewrite_tree-flow v m (noop line) fit =
      rewrites (noop line) v m (part (codes "noop") end line nil) refl (reads.no_atts v m) no_atts
        (reads.head v m (codes "noop") refl)
  flon_rewrite_tree-flow v m (val line w) fit =
      rewrites (val line w) v m (part (codes "val") (field (codes "_0") w end) line nil) refl
        (reads.literal v m (codes "_0") w refl fit) (one_att fit)
        (reads.head v m (codes "val") refl)
  flon_rewrite_tree-flow v m (sequence line fs) fit =
      rewrites (sequence line fs) v m (part (codes "sequence") end line (flow_trees fs)) refl
        (reads.no_atts v m) no_atts (reads.head v m (codes "sequence") refl)

rewriter_of_tree :
    (tools : Exec → Node → Tools) (ex : Exec → Expander) (fuel : ℕ) (s : Exec) (v : Node) (m : Msg)
    (f : Flow)
    → m.tree ≡ some (flow_tree f)
    → flon_rewrite_tree (tools s v) (ex s) (suc fuel) v m (flow_tree f)
      ≡ done (false, record v { inst = some (head_of f) }, record m { tree = some (flow_tree f) })
    → rewriter_of tools ex (suc fuel) s v m ≡ (record v { inst = some (head_of f) }, m)
unfolding rewriter_of
rewriter_of_tree tools ex fuel s v m f e h =
    ap
      (λ (o : Option Value). elim o as (λ _. Node × Msg) [
        | none ↦ (v, m)
        | some u ↦ after_rewriting (v, m) (flon_rewrite_tree (tools s v) (ex s) (suc fuel) v m u)
      ])
      e
    ∙ ap (after_rewriting (v, m)) h
    ∙ ap (λ t. (record v { inst = some (head_of f) }, record m { tree = t })) (sym e)

-- flon_rewrite_tree does to flows what the theorem about them asks of it.
pub rewriter_of-KnowsFlows :
    (g : Grammar) (o : Others) (tools : Exec → Node → Tools) (ex : Exec → Expander) (fuel : ℕ)
    → ((s : Exec) (v : Node) → ReadsFlows (tools s v) (ex s))
    → KnowsFlows g o (rewriter_of tools ex (suc fuel))
rewriter_of-KnowsFlows g o tools ex fuel reads = record {
  known = λ s v m f fit e.
      rewriter_of_tree tools ex fuel s v m f e
        (flon_rewrite_tree-flow (tools s v) (ex s) (reads s v) fuel v m f fit);
}
