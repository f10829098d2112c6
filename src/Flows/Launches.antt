-- ===== src/Flows/Launches.antt =====
-- src/fl_executor.c: the launch of a sequence that is a child of another.
use flon.Base.{
  ℕ, ◌+◌, ◌<◌, ◌≡◌, ◌≢◌, refl, ◌∙◌, ap, sym, subst, arith, none, some, List, [], inl, inr,
}
use flon.Base.Text.{Text, codes, text_eq}
use flon.Base.Hex.{u32}
use flon.Ids.{Grammar, nid_child}
use flon.Ids.Paths.{IsNode}
use flon.Ids.Next.{ParsesNids}
use flon.Json.{Fields}
use flon.State.{Node, Msg, Exec, parent_nid}
use flon.Inst.{reply, over}
use flon.Inst.Seq.{exe_sequence}
use flon.Inst.Seq.Order.{next_child_first, next_child_next}
use flon.Inst.Table.{Others, execute, lookup_instruction, lookup_in}
use flon.Executor.{Rewriter, handle_execute, after_execute}
use flon.Flows.{Fits, Flow, Flows, sequence, none_left, then, head_of, flow_tree}
use flon.Flows.Nodes.{with_node}
use flon.Flows.Turns.{
  closed_execute, IsExecute, Told, Ordered, Waits-close_msg, after_execute-Told,
  transient_loop-execute, Reaches, Reaches-one, Reaches-trans,
}
use flon.Flows.Leaves.{Runs, Begun, KnowsFlows, handle_execute-Begun}
use flon.Flows.Steps.{RunsTo, new_node-parent, new_node-tree}
use flon.Flows.Starts.{seq_exe-over, seq_exe-ok}
use flon.Flows.Rounds.{seq_text, TurnsTo, hears-Told}
use flon.Flows.Places.{IsFresh-self, Place, flon_node_tree-Place, Place-Grounded}
use flon.Flows.Children.{flon_node_tree-child}
use flon.Flows.Left.{LeftAt-all, LeftAt-here, LeftAt-end}

module _ (g : Grammar) (parses : ParsesNids g) (o : Others) (rewrite : Rewriter)
    (knows : KnowsFlows g o rewrite) where
  pub turns_first : (nid : Text) → TurnsTo g nid nid (nid_child nid 0)
  turns_first nid m e = next_child_first g nid m (inr e)

  pub turns_next :
      (nid : Text) (i : ℕ)
      → IsNode nid
      → i + 1 < u32
      → TurnsTo g nid (nid_child nid i) (nid_child nid (i + 1))
  turns_next nid i h lt m e = next_child_next parses none i m h tt not_counter lt e
    where
      not_counter : none ≢ some (codes "0")
      not_counter e = cc

  pub lookup_exe : lookup_instruction g o execute seq_text ≡ some (exe_sequence g)
  unfolding lookup_instruction lookup_in text_eq
  lookup_exe = refl

  launches :
      {nid par : Text} {p : Fields} (l : List (Text × Node)) (s : Exec) (m : Msg) (line : Text)
      (fs : Flows)
      → Fits (sequence line fs)
      → Place l nid par (flow_tree (sequence line fs))
      → s.nodes ≡ l
      → IsExecute m nid par p
      → Begun g o rewrite
          (handle_execute g o rewrite (record s { msgs = [] }) m)
          []
          l
          nid
          (exe_sequence g)
          m
          (sequence line fs)
  unfolding head_of
  launches {nid} l s m line fs fit place es hm =
      let rest = record s { msgs = [] } in
      handle_execute-Begun g o rewrite rest m (sequence line fs) (exe_sequence g) knows fit hm es
        refl (IsFresh-self l nid place.fresh) (flon_node_tree-Place l rest place es) place.not_root
        lookup_exe

  -- A sequence with children orders its first one.
  pub launch_some :
      {nid par : Text} {p : Fields} (l : List (Text × Node)) (s : Exec) (line : Text) (f : Flow)
      (fs : Flows)
      → Fits (sequence line (then f fs))
      → Place l nid par (flow_tree (sequence line (then f fs)))
      → Ordered s l nid par p
      → (t : Exec) × (w : Node) × Reaches g o rewrite s t 1
        × Ordered t (with_node l nid w) (nid_child nid 0) nid p
        × Runs w nid seq_text
        × (w.parent ≡ parent_nid par)
        × (w.tree ≡ none)
  unfolding exe_sequence after_execute head_of
  launch_some {nid} {par} {p} l s line f fs fit place (es, m, em, hm) =
      let all = then f fs in
      let fresh = IsFresh-self l nid place.fresh in
      let b = launches l s m line all fit place es hm in
      let here = Place-Grounded l place in
      let parent = b.parent ∙ new_node-parent nid m (flow_tree (sequence line all)) hm.orderer in
      let kept = b.kept_tree ∙ new_node-tree nid m m.parent _ place.not_root in
      let (t, w, e, ordered, c) =
        seq_exe-ok g l [] line f fs b.state b.node b.msg nid seq_text (nid_child nid 0)
          (flow_tree f) b.node-Runs b.nodes b.messages fresh (b.payload ∙ hm.fields) b.tree
          (next_child_first g nid b.msg (inl (b.sender ∙ hm.no_sender)))
          (λ w c t et.
            flon_node_tree-child line all here t w 0 (omega arith) (c.same_parent ∙ parent)
              (c.same_tree ∙ kept) et
            ∙ LeftAt-here all 0 f fs (LeftAt-all all)) in
      let e' = b.goes_on ∙ ap (closed_execute nid m.parent) e in
      (
        handle_execute g o rewrite (record s { msgs = [] }) m,
        w,
        Reaches-one g o rewrite s _ (λ fuel. transient_loop-execute g o rewrite fuel s m em hm),
        subst (λ t. Ordered t (with_node l nid w) (nid_child nid 0) nid p) (sym e')
            (Waits-close_msg [] b.msg t ordered),
        c.w-Runs,
        c.same_parent ∙ parent,
        c.same_tree ∙ kept,
      )

  -- One with no children tells itself, and then its parent.
  pub launch_none :
      {nid par : Text} {p : Fields} (l : List (Text × Node)) (s : Exec) (line : Text)
      → Fits (sequence line none_left)
      → Place l nid par (flow_tree (sequence line none_left))
      → Ordered s l nid par p
      → RunsTo g o rewrite s l par nid p 2
  unfolding exe_sequence head_of
  launch_none {nid} {par} {p} l s line fit place (es, m, em, hm) =
      let fresh = IsFresh-self l nid place.fresh in
      let b = launches l s m line none_left fit place es hm in
      let here = Place-Grounded l place in
      let parent =
        b.parent ∙ new_node-parent nid m (flow_tree (sequence line none_left)) hm.orderer in
      let kept = b.kept_tree ∙ new_node-tree nid m m.parent _ place.not_root in
      let (t, w, e, left, c) =
        seq_exe-over g l line b.state b.node b.msg nid seq_text b.node-Runs b.nodes b.messages fresh
          (b.payload ∙ hm.fields) b.tree in
      let e' = b.goes_on ∙ ap (closed_execute nid m.parent) e in
      let s1 = handle_execute g o rewrite (record s { msgs = [] }) m in
      let told =
        subst (λ t. Told t (with_node l nid w) nid nid p) (sym e')
          (Waits-close_msg [] b.msg _
            (after_execute-Told nid m.parent (reply over t b.msg) refl left)) in
      let first =
        Reaches-one g o rewrite s s1 (λ fuel. transient_loop-execute g o rewrite fuel s m em hm) in
      let no_child =
        flon_node_tree-child line none_left here s1 w 0 (omega arith) (c.same_parent ∙ parent)
          (c.same_tree ∙ kept) told.0
        ∙ LeftAt-end none_left 0 (LeftAt-all none_left) in
      let (u, second, end) =
        hears-Told g o rewrite l s1 w c.w-Runs fresh (c.same_parent ∙ parent) (turns_first nid)
          no_child told in
      (u, Reaches-trans g o rewrite s s1 u 1 1 2 first second refl, end)
