-- ===== src/Flows/Whole.antt =====
-- src/fl_executor.c: a whole flow in flon_execut, for any rewriting that knows flows.
use flon.Base.{
  ℕ, suc, ◌+◌, ◌-◌, ◌≤◌, ◌≡◌, refl, ◌∙◌, ap, sym, subst, arith, Option, none, some, [], ◌∷◌, inl,
}
use flon.Base.Text.{Text, codes, text_eq}
use flon.Ids.{Grammar, nid_child}
use flon.Ids.Next.{ParsesNids}
use flon.Json.{Value, Fields, obj}
use flon.State.{Node, Msg, Exec, null_parent, new_node}
use flon.Inst.{reply, over}
use flon.Inst.Branch.{exe_noop, exe_val}
use flon.Inst.Seq.{exe_sequence}
use flon.Inst.Seq.Order.{next_child_first}
use flon.Inst.Table.{Others, lookup_instruction, lookup_in}
use flon.Executor.{Rewriter, transient_loop, flon_execut, after_execute}
use flon.Flows.{
  Flow, Flows, noop, val, sequence, none_left, then, count, head_of, flow_tree, eval, eval_all,
  steps, steps_all, Fits, AllFit,
}
use flon.Flows.Nodes.{with_node}
use flon.Flows.Turns.{
  closed_execute, ToldAfter, OrderedAfter, Waits-close_msg, after_execute-Told, Reaches-trans,
}
use flon.Flows.Leaves.{Runs, KnowsFlows}
use flon.Flows.Steps.{exe_noop-AnswersAt, exe_val-AnswersAt}
use flon.Flows.Sequences.{Follows-refl}
use flon.Flows.Starts.{seq_exe-over, seq_exe-ok}
use flon.Flows.Rounds.{seq_text}
use flon.Flows.Children.{flon_node_tree-child, child-Place}
use flon.Flows.Left.{LeftAt-all, LeftAt-here, LeftAt-next, LeftAt-end, at-count}
use flon.Flows.Launches.{turns_first, turns_next, lookup_exe}
use flon.Flows.Runs.{Heard-after, run_flow, run_rest}
use flon.Flows.Launch.{
  root_nid, launched, Ended, root-Grounded, none_there, transient_loop-launched,
  handle_execute_root-Begun,
}
use flon.Flows.Ends.{start, first, first_turn, sequence_ends, EndsAs, leaf-EndsAs}

-- The point and the payload of the message that flon_execut ends with.
abbrev pub end_of : Option (Option Msg) → Option (Option Text × Option Value)
end_of (some (some m)) = some (m.point, m.payload)
end_of _ = none

module _ (g : Grammar) (parses : ParsesNids g) (o : Others) (rewrite : Rewriter)
    (knows : KnowsFlows g o rewrite) where
  none-EndsAs :
      (line : Text) (p : Fields)
      → Fits (sequence line none_left)
      → EndsAs g parses o rewrite knows (sequence line none_left) p p 3
  unfolding exe_sequence head_of new_node text_eq
  none-EndsAs line p fit =
      let f = sequence line none_left in
      let b =
        handle_execute_root-Begun g o rewrite p f (exe_sequence g) knows fit
          (lookup_exe g parses o rewrite knows) in
      let (t, w, e, left, c) =
        seq_exe-over g [] line b.state b.node b.msg root_nid seq_text b.node-Runs b.nodes b.messages
          none_there b.payload b.tree in
      let e' = b.goes_on ∙ ap (closed_execute root_nid none) e in
      let told =
        subst (λ t. ToldAfter (launched p ∷ []) t (with_node [] root_nid w) root_nid root_nid p)
          (sym e')
          (Waits-close_msg (launched p ∷ []) b.msg _
            (after_execute-Told root_nid none (reply over t b.msg) refl left)) in
      let (u, second, told') =
        transient_loop-launched g o rewrite (first g parses o rewrite knows f p) p told in
      let gone =
        flon_node_tree-child line none_left (root-Grounded (flow_tree f)) u w 0 (omega arith)
          (c.same_parent ∙ b.parent) (c.same_tree ∙ b.kept_tree) told'.0
        ∙ LeftAt-end none_left 0 (LeftAt-all none_left) in
      let (z, third, end) =
        sequence_ends g parses o rewrite knows u w c.w-Runs (c.same_parent ∙ b.parent)
          (turns_first g parses o rewrite knows root_nid) gone told' in
      (
        z,
        Reaches-trans g o rewrite (start g parses o rewrite knows f p)
            (first g parses o rewrite knows f p) z 1 2 3 (first_turn g parses o rewrite knows f p)
            (Reaches-trans g o rewrite (first g parses o rewrite knows f p) u z 1 1 2 second third
              refl)
            refl,
        end,
      )

  -- The first g parses o rewrite knows child of the whole flow is ordered.
  first_child-Ordered :
      (line : Text) (f : Flow) (fs : Flows) (p : Fields)
      → Fits (sequence line (then f fs))
      → (w : Node) × OrderedAfter
          (launched p ∷ [])
          (first g parses o rewrite knows (sequence line (then f fs)) p)
          (with_node [] root_nid w)
          (nid_child root_nid 0)
          root_nid
          p
        × Runs w root_nid seq_text
        × (w.parent ≡ null_parent)
        × (w.tree ≡ some (flow_tree (sequence line (then f fs))))
  unfolding exe_sequence after_execute head_of new_node text_eq
  first_child-Ordered line f fs p fit =
      let all = then f fs in
      let whole = sequence line all in
      let here = root-Grounded (flow_tree whole) in
      let b =
        handle_execute_root-Begun g o rewrite p whole (exe_sequence g) knows fit
          (lookup_exe g parses o rewrite knows) in
      let (t, w, e, ordered, c) =
        seq_exe-ok g [] (launched p ∷ []) line f fs b.state b.node b.msg root_nid seq_text
          (nid_child root_nid 0) (flow_tree f) b.node-Runs b.nodes b.messages none_there b.payload
          b.tree (next_child_first g root_nid b.msg (inl b.sender))
          (λ w c t et.
            flon_node_tree-child line all here t w 0 (omega arith) (c.same_parent ∙ b.parent)
              (c.same_tree ∙ b.kept_tree) et
            ∙ LeftAt-here all 0 f fs (LeftAt-all all)) in
      let e' = b.goes_on ∙ ap (closed_execute root_nid none) e in
      (
        w,
        subst
            (λ t.
              OrderedAfter (launched p ∷ []) t (with_node [] root_nid w) (nid_child root_nid 0)
                root_nid p)
            (sym e') (Waits-close_msg (launched p ∷ []) b.msg t ordered),
        c.w-Runs,
        c.same_parent ∙ b.parent,
        c.same_tree ∙ b.kept_tree,
      )

  some-EndsAs :
      (line : Text) (f : Flow) (fs : Flows) (p : Fields)
      → Fits (sequence line (then f fs))
      → EndsAs g parses o rewrite knows
          (sequence line (then f fs))
          p
          (eval_all (then f fs) p)
          (1 + ((1 + (steps f + steps_all fs)) + 1))
  unfolding Fits AllFit eval_all
  some-EndsAs line f fs p fit =
      let (lt, fits) = fit in
      let all = then f fs in
      let whole = sequence line all in
      let here = root-Grounded (flow_tree whole) in
      let left = LeftAt-all all in
      let (w, ordered, h, ep, et) = first_child-Ordered line f fs p fit in
      let (t, second, child) =
        transient_loop-launched g o rewrite (first g parses o rewrite knows whole p) p ordered in
      let (u, run, told) =
        run_flow g parses o rewrite knows (with_node [] root_nid w) t f fits.0
          (child-Place line all here w 0 (flow_tree f) (omega arith) ep et
            (LeftAt-here all 0 f fs left))
          child in
      let heard =
        run_rest g parses o rewrite knows [] u w line all 1 fs here lt fits.1
          (LeftAt-next all 0 f fs left) h ep et
          (turns_next g parses o rewrite knows root_nid 0 here.node (omega arith)) told in
      let k = 1 + (steps f + steps_all fs) in
      let (z, v, from, reached, told', c, turns) =
        Heard-after g parses o rewrite knows [] (first g parses o rewrite knows whole p) t u w w all
          (steps f) (steps_all fs) second run (Follows-refl w root_nid seq_text h) heard in
      let gone =
        flon_node_tree-child line all here z v (count all) lt (c.same_parent ∙ ep)
          (c.same_tree ∙ et) told'.0
        ∙ at-count all in
      let (y, last, end) =
        sequence_ends g parses o rewrite knows z v c.w-Runs (c.same_parent ∙ ep) turns gone told' in
      (
        y,
        Reaches-trans g o rewrite (start g parses o rewrite knows whole p)
            (first g parses o rewrite knows whole p) y 1 (k + 1) (1 + (k + 1))
            (first_turn g parses o rewrite knows whole p)
            (Reaches-trans g o rewrite (first g parses o rewrite knows whole p) z y k 1 (k + 1)
              reached last refl)
            refl,
        end,
      )

  flow-EndsAs :
      (f : Flow) (p : Fields)
      → Fits f
      → EndsAs g parses o rewrite knows f p (eval f p) (1 + steps f)
  unfolding Fits eval steps lookup_instruction lookup_in text_eq head_of
  flow-EndsAs (noop line) p fits =
      leaf-EndsAs g parses o rewrite knows (noop line) p exe_noop fits (exe_noop-AnswersAt line)
        refl refl
  flow-EndsAs (val line v) p fits =
      leaf-EndsAs g parses o rewrite knows (val line v) p exe_val fits (exe_val-AnswersAt line v)
        refl refl
  flow-EndsAs (sequence line none_left) p fits = none-EndsAs line p fits
  flow-EndsAs (sequence line (then f fs)) p fits = some-EndsAs line f fs p fits

  ended :
      (fuel : ℕ) (t : Exec) (p : Fields)
      → Ended t p
      → end_of (transient_loop g o rewrite (suc fuel) t)
        ≡ some (some (codes "terminated"), some (obj p))
  unfolding transient_loop
  ended fuel t p (m, em, ep, epay) = ground (arith, em, ep, epay)

  -- flon_execut, run on the tree of a flow with a payload, ends with a message that the flow is
  -- terminated, whose payload is what the flow says, if the fuel is two more than the messages that
  -- the flow takes, no sequence has 2 ^ 32 children, the parse reads node ids and rewriting notes
  -- the head of the tree and nothing else.
  pub flon_execut-KnowsFlows :
      (fuel : ℕ) (f : Flow) (p : Fields)
      → Fits f
      → steps f + 2 ≤ fuel
      → end_of (flon_execut g o rewrite fuel (flow_tree f) (some (obj p)) none)
        ≡ some (some (codes "terminated"), some (obj (eval f p)))
  unfolding flon_execut
  flon_execut-KnowsFlows fuel f p fits enough =
      let (t, reached, end) = flow-EndsAs f p fits in
      let left = fuel - (2 + steps f) in
      ap end_of (reached fuel (suc left) (omega (arith, enough))) ∙ ended left t (eval f p) end
