-- ===== src/Flows/Rounds.antt =====
-- src/fl_executor.c: the turns of the loop in which a sequence hears from a child.
use flon.Base.{◌≡◌, refl, ◌∙◌, ap, sym, subst, none, some, List, []}
use flon.Base.Text.{Text, codes, text_eq}
use flon.Ids.{Grammar}
use flon.Json.{Value, Fields}
use flon.State.{Node, Msg, Exec, find_in, update_in, update_node, parent_nid}
use flon.State.Tree.{flon_node_tree}
use flon.State.Tree.Frame.{flon_node_tree-nodes}
use flon.Inst.{reply, over}
use flon.Inst.Seq.{next_child, seq_rcv, rcv_sequence}
use flon.Inst.Table.{Others, receive, lookup_instruction, lookup_in, after_call}
use flon.Executor.{Rewriter, handle_return, after_return, close_msg}
use flon.Flows.Nodes.{with_node, update_in-with_node}
use flon.Flows.Turns.{
  closed_return, IsReceive, Told, Ordered, Waits-close_msg, after_return-Told,
  transient_loop-receive, Reaches, Reaches-one,
}
use flon.Flows.Leaves.{Runs}
use flon.Flows.Steps.{handle_return-Told}
use flon.Flows.Sequences.{Follows, seq_rcv-over, seq_rcv-ok}

abbrev pub seq_text : Text
seq_text = codes "sequence"

-- Where the sequence is told of the child before the one with the id `next`.
abbrev pub TurnsTo : Grammar → Text → Text → Text → Type 0
TurnsTo g nid from next = (m : Msg) → m.from ≡ some from → next_child g nid m ≡ some next

module _ (g : Grammar) (o : Others) (rewrite : Rewriter) where
  lookup_sequence : lookup_instruction g o receive seq_text ≡ some (rcv_sequence g)
  unfolding lookup_instruction lookup_in text_eq
  lookup_sequence = refl

  -- What handle_return makes of a message to a sequence.
  pub hears :
      {nid from : Text} {p : Fields} (l : List (Text × Node)) (s : Exec) (m : Msg) (v : Node)
      → Runs v nid seq_text
      → IsReceive m nid from p
      → s.nodes ≡ with_node l nid v
      → find_in nid l ≡ none
      → let r = after_call nid (seq_rcv g (update_node nid (λ w. v) s) v m) in
        handle_return g o rewrite receive s m ≡ close_msg none r.msg (after_return nid m.parent r)
  unfolding rcv_sequence
  hears l s m v h hm es fresh =
      handle_return-Told g o rewrite l s m v (rcv_sequence g) seq_text h lookup_sequence hm es fresh

  -- It turns to its next child.
  pub hears-Ordered :
      {nid from next : Text} {p : Fields} (l : List (Text × Node)) (s : Exec) (v : Node) (u : Value)
      → Runs v nid seq_text
      → find_in nid l ≡ none
      → TurnsTo g nid from next
      → flon_node_tree s next ≡ some u
      → Told s (with_node l nid v) nid from p
      → (t : Exec) × (w : Node) × Reaches g o rewrite s t 1
        × Ordered t (with_node l nid w) next nid p
        × Follows v w nid seq_text
  unfolding after_return
  hears-Ordered {nid} {from} {next} {p} l s v u h fresh turns eu (es, m, em, hm) =
      let rest = record s { msgs = [] } in
      let s1 = update_node nid (λ w. v) rest in
      let e1 = ap (update_in nid (λ w. v)) es ∙ update_in-with_node nid (λ w. v) v l fresh in
      let (t, w, e, ordered, c) =
        seq_rcv-ok g l [] s1 v m nid seq_text next u h e1 refl fresh hm.fields (turns m hm.sender)
          (flon_node_tree-nodes s1 s next (e1 ∙ sym es) ∙ eu) in
      let e' = hears l rest m v h hm es fresh ∙ ap (closed_return nid m.parent) e in
      (
        handle_return g o rewrite receive rest m,
        w,
        Reaches-one g o rewrite s _ (λ fuel. transient_loop-receive g o rewrite fuel s m em hm),
        subst (λ t. Ordered t (with_node l nid w) next nid p) (sym e')
            (Waits-close_msg [] m t ordered),
        c,
      )

  -- It is over after its last child, and tells its parent.
  pub hears-Told :
      {nid from next par : Text} {p : Fields} (l : List (Text × Node)) (s : Exec) (v : Node)
      → Runs v nid seq_text
      → find_in nid l ≡ none
      → v.parent ≡ parent_nid par
      → TurnsTo g nid from next
      → flon_node_tree s next ≡ none
      → Told s (with_node l nid v) nid from p
      → (t : Exec) × Reaches g o rewrite s t 1 × Told t l par nid p
  hears-Told {nid} {from} {next} {par} {p} l s v h fresh parent turns eu (es, m, em, hm) =
      let rest = record s { msgs = [] } in
      let s1 = update_node nid (λ w. v) rest in
      let e1 = ap (update_in nid (λ w. v)) es ∙ update_in-with_node nid (λ w. v) v l fresh in
      let (t, w, e, left, c) =
        seq_rcv-over g l s1 v m nid seq_text next h e1 refl fresh hm.fields (turns m hm.sender)
          (flon_node_tree-nodes s1 s next (e1 ∙ sym es) ∙ eu) in
      let e' = hears l rest m v h hm es fresh ∙ ap (closed_return nid m.parent) e in
      (
        handle_return g o rewrite receive rest m,
        Reaches-one g o rewrite s _ (λ fuel. transient_loop-receive g o rewrite fuel s m em hm),
        subst (λ t. Told t l par nid p) (sym e')
            (Waits-close_msg [] m _ (
              after_return-Told nid par w m.parent (reply over t m) refl left fresh
                (c.same_parent ∙ parent))),
      )
