-- ===== src/Flows/Launch.antt =====
-- src/fl_executor.c: the first turn of an execution, and the last.
use flon.Base.{inl, ℕ, suc, ◌+◌, ◌≡◌, refl, ◌∙◌, ap, arith, Option, none, some, List, [], ◌∷◌, ◌++◌}
use flon.Base.Text.{Text, codes, text_eq}
use flon.Ids.{Grammar}
use flon.Ids.Paths.{root}
use flon.Json.{Value, Fields, obj}
use flon.State.{
  Node, Msg, empty_msg, Exec, find_in, update_in, set_node, update_node, remove_node, queue_msg,
  stamp, null_parent, new_node,
}
use flon.State.Tree.{flon_parent_nid, stored_tree}
use flon.Inst.{Reply, Outcome, Instruction}
use flon.Inst.Table.{Others, execute, call_instruction, lookup_instruction, add_vars}
use flon.Executor.{
  Rewriter, transient_loop, handle_execute, after_return, after_execute, close_msg, run_new, blank,
  array_or_none, queue_over,
}
use flon.Flows.{Fits, Flow, noop, val, sequence, head_of, flow_tree}
use flon.Flows.Nodes.{with_node, find_in-with_node, set_in-with_node, update_in-with_node}
use flon.Flows.Trees.{kept}
use flon.Flows.Turns.{Leaves, WaitsAfter, Reaches, Reaches-one, close_msg-msgs}
use flon.Flows.Leaves.{Runs, Begun, KnowsFlows, Runs-add_vars, call_instruction_execute}
use flon.Flows.Places.{Grounded, find_node-nodes}

abbrev pub root_nid : Text
root_nid = codes "0"

-- The order that flon_execut starts with.
abbrev pub first_order : Flow → Fields → Msg
first_order f p = record empty_msg {
  point = some (codes "execute");
  tree = some (flow_tree f);
  payload = some (obj p);
}

abbrev pub launched : Fields → Msg
launched p = stamp (codes "launched") root_nid none 1 (record empty_msg { payload = some (obj p) })

-- The one message left is the one about the end.
abbrev pub Ended : Exec → Fields → Type 0
Ended t p =
    (m : Msg) × (t.msgs ≡ m ∷ [])
    × (m.point ≡ some (codes "terminated"))
    × (m.payload ≡ some (obj p))

array_or_none-flow_tree : (f : Flow) → array_or_none (some (flow_tree f)) ≡ some (flow_tree f)
unfolding flow_tree
array_or_none-flow_tree (noop line) = refl
array_or_none-flow_tree (val line v) = refl
array_or_none-flow_tree (sequence line fs) = refl

-- The node of the whole flow keeps its tree.
pub root-Grounded : (t : Value) → Grounded [] root_nid null_parent (some t) t
unfolding find_in
root-Grounded t = record {
  node = root (inl refl);
  fresh = λ k. refl;
  finds_tree = λ s v ep et es. kept (
      ap stored_tree (find_node-nodes s root_nid _ es ∙ find_in-with_node root_nid v [] refl) ∙ et);
}

-- The message that is queued when the node of the whole flow is over.
abbrev about_end : Reply → Msg
about_end r =
    stamp (codes "terminated") root_nid none (r.state.msg_counter + 1)
      (record empty_msg { payload = r.msg.payload })

flon_parent_nid_root :
    (s : Exec) (v : Node)
    → s.nodes ≡ with_node [] root_nid v
    → v.parent ≡ null_parent
    → flon_parent_nid s root_nid ≡ none
unfolding flon_parent_nid find_in
flon_parent_nid_root s v e ep =
    let found = find_node-nodes s root_nid _ e ∙ find_in-with_node root_nid v [] refl in
    ground arith

after_return_root :
    (q : Option Text) (r : Reply)
    → r.outcome ≡ Outcome.over
    → flon_parent_nid r.state root_nid ≡ none
    → after_return root_nid q r
      ≡ remove_node root_nid (
          queue_msg
            (codes "terminated")
            root_nid
            none
            (record empty_msg { payload = r.msg.payload })
            r.state)
unfolding after_return queue_over text_eq
after_return_root q r e ep = ground arith

-- The node of the whole flow is over.
pub after_return-Ended :
    {p : Fields} (v : Node) (q : Option Text) (r : Reply)
    → r.outcome ≡ Outcome.over
    → Leaves [] r (with_node [] root_nid v) p
    → v.parent ≡ null_parent
    → Ended (close_msg none r.msg (after_return root_nid q r)) p
unfolding queue_msg stamp
after_return-Ended {p} v q r eo h ep =
    let e = after_return_root q r eo (flon_parent_nid_root r.state v h.nodes ep) in
    (
      about_end r,
      close_msg-msgs r.msg (after_return root_nid q r)
          ∙ ap (λ (s : Exec). s.msgs) e
          ∙ ap (λ l. l ++ about_end r ∷ []) h.messages,
      refl,
      h.fields,
    )

pub none_there : find_in root_nid [] ≡ none
unfolding find_in
none_there = refl

module _ (g : Grammar) (o : Others) (rewrite : Rewriter) where
  drop_launched :
      (s : Exec) (p : Fields) (m : Msg)
      → s.msgs ≡ launched p ∷ m ∷ []
      → (fuel : ℕ)
      → transient_loop g o rewrite (suc fuel) s
        ≡ transient_loop g o rewrite fuel (record s { msgs = m ∷ [] })
  unfolding transient_loop stamp
  drop_launched s p m e fuel = ground (arith, e)

  -- The message about the launch is not for the loop.
  pub transient_loop-launched :
      {l : List (Text × Node)} {P : Msg → Type 0} (s : Exec) (p : Fields)
      → WaitsAfter (launched p ∷ []) s l P
      → (t : Exec) × Reaches g o rewrite s t 1 × WaitsAfter [] t l P
  transient_loop-launched s p (es, m, em, h) =
      let t = record s { msgs = m ∷ [] } in
      (t, Reaches-one g o rewrite s t (drop_launched s p m em), (es, m, refl, h))

  -- handle_execute on the first order
  handle_execute_root :
      (p : Fields) (f : Flow)
      → KnowsFlows g o rewrite
      → Fits f
      → let m = first_order f p in
        let n = new_node m root_nid none (flow_tree f) in
        let v = record n { inst = some (head_of f) } in
        let r =
          call_instruction g o execute
            (queue_msg
              (codes "launched")
              root_nid
              none
              (record empty_msg { payload = some (obj p) })
              (update_node root_nid (λ w. v) (set_node root_nid n blank)))
            v
            m in
        handle_execute g o rewrite blank m ≡ close_msg none r.msg (after_execute root_nid none r)
  unfolding handle_execute run_new text_eq
  handle_execute_root p f k fit =
      let m = first_order f p in
      let n = new_node m root_nid none (flow_tree f) in
      let e = k.known (set_node root_nid n blank) n m f fit refl in
      ground (arith, array_or_none-flow_tree f, e)

  -- The call of the instruction of the whole flow, behind the message about the launch.
  pub handle_execute_root-Begun :
      (p : Fields) (f : Flow) (i : Instruction)
      → KnowsFlows g o rewrite
      → Fits f
      → lookup_instruction g o execute (head_of f) ≡ some i
      → Begun g o rewrite
          (handle_execute g o rewrite blank (first_order f p))
          (launched p ∷ [])
          []
          root_nid
          i
          (first_order f p)
          f
  unfolding queue_msg
  handle_execute_root-Begun p f i k fit el =
      let m = first_order f p in
      let n = new_node m root_nid none (flow_tree f) in
      let v = record n { inst = some (head_of f) } in
      let s1 =
        queue_msg (codes "launched") root_nid none (record empty_msg { payload = some (obj p) })
          (update_node root_nid (λ w. v) (set_node root_nid n blank)) in
      let h1 : Runs v root_nid (head_of f) =
        unfold new_node in
        record { id = refl; runs = refl; no_bastards = refl; no_timers = refl } in
      let (fs, e) = call_instruction_execute g o rewrite s1 v m i root_nid (head_of f) h1 el refl in
      let (h2, ep, et) = Runs-add_vars g o rewrite fs v root_nid (head_of f) h1 in
      let e1 : s1.nodes ≡ with_node [] root_nid v =
        ap (update_in root_nid (λ w. v)) (set_in-with_node root_nid n [] none_there)
        ∙ update_in-with_node root_nid (λ w. v) n [] none_there in
      record {
        state = update_node root_nid (λ w. add_vars fs v) s1;
        node = add_vars fs v;
        msg = m;
        node-Runs = h2;
        parent = ep;
        kept_tree = et;
        nodes =
            ap (update_in root_nid (λ w. add_vars fs v)) e1
            ∙ update_in-with_node root_nid (λ w. add_vars fs v) v [] none_there;
        messages = refl;
        tree = refl;
        payload = refl;
        sender = refl;
        goes_on =
            handle_execute_root p f k fit
            ∙ ap (λ (r : Reply). close_msg none r.msg (after_execute root_nid none r)) e;
      }
