-- ===== src/Flows/Ends.antt =====
-- src/fl_executor.c: how the whole flow starts, and how its node ends.
use flon.Base.{ℕ, ◌≡◌, refl, ◌∙◌, ap, sym, subst, none, some, [], ◌∷◌}
use flon.Base.Text.{Text}
use flon.Ids.{Grammar}
use flon.Ids.Next.{ParsesNids}
use flon.Json.{Fields}
use flon.State.{Node, Exec, update_in, update_node, null_parent, new_node}
use flon.State.Tree.{flon_node_tree}
use flon.State.Tree.Frame.{flon_node_tree-nodes}
use flon.Inst.{reply, over, Instruction}
use flon.Inst.Cancel.{rcv_}
use flon.Inst.Table.{Others, receive, execute, lookup_instruction}
use flon.Executor.{Rewriter, transient_loop, handle_execute, handle_return, blank}
use flon.Flows.{Flow, head_of, eval, Fits}
use flon.Flows.Nodes.{with_node, update_in-with_node}
use flon.Flows.Turns.{
  closed_return, Told, transient_loop-receive, Reaches, Reaches-one, Reaches-trans,
}
use flon.Flows.Leaves.{Runs, KnowsFlows}
use flon.Flows.Steps.{AnswersAt, leaf_hears, leaf_launched}
use flon.Flows.Sequences.{seq_rcv-over}
use flon.Flows.Rounds.{seq_text, TurnsTo, hears}
use flon.Flows.Launch.{
  root_nid, first_order, Ended, after_return-Ended, none_there, transient_loop-launched,
  handle_execute_root-Begun,
}

module _ (g : Grammar) (parses : ParsesNids g) (o : Others) (rewrite : Rewriter)
    (knows : KnowsFlows g o rewrite) where
  abbrev pub start : Flow → Fields → Exec
  start f p = record blank { msgs = first_order f p ∷ [] }

  abbrev pub first : Flow → Fields → Exec
  first f p = handle_execute g o rewrite blank (first_order f p)

  pub first_turn : (f : Flow) (p : Fields) → Reaches g o rewrite (start f p) (first f p) 1
  unfolding transient_loop
  first_turn f p = Reaches-one g o rewrite (start f p) (first f p) (λ fuel. refl)

  -- A sequence that is the whole flow is over after its last child.
  pub sequence_ends :
      {from next : Text} {p : Fields} (s : Exec) (v : Node)
      → Runs v root_nid seq_text
      → v.parent ≡ null_parent
      → TurnsTo g root_nid from next
      → flon_node_tree s next ≡ none
      → Told s (with_node [] root_nid v) root_nid from p
      → (t : Exec) × Reaches g o rewrite s t 1 × Ended t p
  sequence_ends {from} {next} {p} s v h parent turns eu (es, m, em, hm) =
      let rest = record s { msgs = [] } in
      let s1 = update_node root_nid (λ w. v) rest in
      let e1 =
        ap (update_in root_nid (λ w. v)) es
        ∙ update_in-with_node root_nid (λ w. v) v [] none_there in
      let (t, w, e, left, c) =
        seq_rcv-over g [] s1 v m root_nid seq_text next h e1 refl none_there hm.fields
          (turns m hm.sender) (flon_node_tree-nodes s1 s next (e1 ∙ sym es) ∙ eu) in
      let e' =
        hears g o rewrite [] rest m v h hm es none_there ∙ ap (closed_return root_nid m.parent) e in
      (
        handle_return g o rewrite receive rest m,
        Reaches-one g o rewrite s _ (λ fuel. transient_loop-receive g o rewrite fuel s m em hm),
        subst (λ t. Ended t p) (sym e')
            (after_return-Ended w m.parent (reply over t m) refl left (c.same_parent ∙ parent)),
      )

  abbrev pub EndsAs : Flow → Fields → Fields → ℕ → Type 0
  EndsAs f p q k = (t : Exec) × Reaches g o rewrite (start f p) t k × Ended t q

  pub leaf-EndsAs :
      (f : Flow) (p : Fields) (i : Instruction)
      → Fits f
      → AnswersAt i f
      → lookup_instruction g o execute (head_of f) ≡ some i
      → lookup_instruction g o receive (head_of f) ≡ some rcv_
      → EndsAs f p (eval f p) 3
  unfolding new_node
  leaf-EndsAs f p i fit a ee er =
      let b = handle_execute_root-Begun g o rewrite p f i knows fit ee in
      let (t, second, (es, m, em, hm)) =
        transient_loop-launched g o rewrite (first f p) p
          (leaf_launched g o rewrite (first f p) a refl b) in
      let rest = record t { msgs = [] } in
      let (r, eo, left, e) =
        leaf_hears g o rewrite [] rest b.node m b.node-Runs er none_there es refl hm in
      let u = handle_return g o rewrite receive rest m in
      let third =
        Reaches-one g o rewrite t u (λ fuel. transient_loop-receive g o rewrite fuel t m em hm) in
      (
        u,
        Reaches-trans g o rewrite (start f p) (first f p) u 1 2 3 (first_turn f p)
            (Reaches-trans g o rewrite (first f p) t u 1 1 2 second third refl) refl,
        subst (λ t. Ended t (eval f p)) (sym e)
            (after_return-Ended b.node m.parent r eo left b.parent),
      )
