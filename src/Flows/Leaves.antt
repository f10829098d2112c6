-- ===== src/Flows/Leaves.antt =====
-- src/fl_executor.c: how the handlers call the instruction of a node of a flow.
use flon.Base.{◌≡◌, refl, ◌∙◌, ap, arith, Option, none, some, List, [], false}
use flon.Base.Text.{Text, codes, text_eq}
use flon.Ids.{Grammar}
use flon.Json.{Fields}
use flon.State.{
  Node, Msg, Exec, find_in, set_in, update_in, find_node, update_node, set_node, new_node,
}
use flon.State.Tree.{flon_node_tree, item}
use flon.Inst.{Reply, Outcome, Instruction, over, ok, reply}
use flon.Inst.Cancel.{rcv_}
use flon.Inst.Table.{
  Others, catt_vars, receive, execute, call_instruction, lookup_instruction, eval_catt_pre,
  remove_timer, add_vars, after_call,
}
use flon.Executor.{
  Rewriter, handle_execute, handle_return, after_return, after_execute, close_msg, run_new,
}
use flon.Flows.{Fits, Flow, head_of, flow_tree}
use flon.Flows.Nodes.{with_node, update_in-with_node, set_in-with_node}
use flon.Flows.Turns.{IsReceive, IsExecute}

-- The node of an instruction that has neither bastards nor timers.
pub record Runs (v : Node) (nid head : Text) : Type 0 where
  pub id : v.nid ≡ nid
  pub runs : v.inst ≡ some head
  pub no_bastards : v.bastards ≡ none
  pub no_timers : v.timers ≡ none

module _ (g : Grammar) (o : Others) (rewrite : Rewriter) where
  -- handle_return, of a node that is there and a message that is in no file
  pub handle_return_found :
      {nid from : Text} {p : Fields} (s : Exec) (m : Msg) (v : Node)
      → IsReceive m nid from p
      → find_node s nid ≡ some v
      → let r = call_instruction g o receive s v m in
        handle_return g o rewrite receive s m ≡ close_msg none r.msg (after_return nid m.parent r)
  unfolding handle_return
  handle_return_found s m v h e = ground (arith, h.to, h.no_file)

  -- A receive goes to the instruction with the node as it is.
  pub call_instruction_receive :
      (s : Exec) (v : Node) (m : Msg) (i : Instruction) (head : Text)
      → v.inst ≡ some head
      → lookup_instruction g o receive head ≡ some i
      → m.trigger ≡ none
      → call_instruction g o receive s v m ≡ after_call v.nid (i (update_node v.nid (λ w. v) s) v m)
  unfolding call_instruction eval_catt_pre remove_timer
  call_instruction_receive s v m i head ei el et = ground arith

  pub rcv_-leaf :
      (s : Exec) (v : Node) (m : Msg)
      → v.bastards ≡ none
      → v.timers ≡ none
      → rcv_ s v m ≡ reply over s m
  unfolding rcv_ flon.Inst.Cancel.unschedule_timers flon.Inst.Cancel.cancel_dependents
      flon.Inst.Cancel.cancel_loop
  rcv_-leaf s v m eb et = ground arith

  -- What an instruction is called with at the launch of a node behind those of `l`, and what
  -- handle_execute does with its answer.
  pub record Begun (t : Exec) (ms : List Msg) (l : List (Text × Node)) (nid : Text)
      (i : Instruction) (m : Msg) (f : Flow) : Type 0 where
    pub state : Exec
    pub node : Node
    pub msg : Msg
    pub node-Runs : Runs node nid (head_of f)
    pub parent : node.parent ≡ (new_node m nid m.parent (flow_tree f)).parent
    pub kept_tree : node.tree ≡ (new_node m nid m.parent (flow_tree f)).tree
    pub nodes : state.nodes ≡ with_node l nid node
    pub messages : state.msgs ≡ ms
    pub tree : msg.tree ≡ some (flow_tree f)
    pub payload : msg.payload ≡ m.payload
    pub sender : msg.from ≡ m.from
    pub goes_on :
        let r = after_call nid (i state node msg) in
        t ≡ close_msg none r.msg (after_execute nid m.parent r)

  -- flon_rewrite_tree has nothing to do for a flow but to note its instruction.
  pub record KnowsFlows : Type 0 where
    pub known :
        (s : Exec) (v : Node) (m : Msg) (f : Flow)
        → Fits f
        → m.tree ≡ some (flow_tree f)
        → rewrite s v m ≡ (record v { inst = some (head_of f) }, m)

  pub Runs-add_vars :
      (fs : Option Fields) (v : Node) (nid head : Text)
      → Runs v nid head
      → Runs (add_vars fs v) nid head
        × ((add_vars fs v).parent ≡ v.parent)
        × ((add_vars fs v).tree ≡ v.tree)
  Runs-add_vars none v nid head h = (h, refl, refl)
  Runs-add_vars (some fs) v nid head h = (
    record { id = h.id; runs = h.runs; no_bastards = h.no_bastards; no_timers = h.no_timers },
    refl,
    refl,
  )

  pub call_instruction_execute :
      (s : Exec) (v : Node) (m : Msg) (i : Instruction) (nid head : Text)
      → Runs v nid head
      → lookup_instruction g o execute head ≡ some i
      → m.trigger ≡ none
      → (fs : Option Fields) × (call_instruction g o execute s v m
          ≡ after_call nid (i (update_node nid (λ w. add_vars fs v) s) (add_vars fs v) m))
  unfolding call_instruction eval_catt_pre remove_timer
  call_instruction_execute s v m i nid head h el et =
      (catt_vars o.to_text (item (flon.Inst.Seq.tree_of s v m) 1), ground (arith, h.runs, h.id))

  handle_execute_new :
      {nid par : Text} {p : Fields} (s : Exec) (m : Msg) (f : Flow)
      → KnowsFlows
      → Fits f
      → IsExecute m nid par p
      → flon_node_tree s nid ≡ some (flow_tree f)
      → text_eq nid (codes "0") ≡ false
      → let n = new_node m nid m.parent (flow_tree f) in
        let v = record n { inst = some (head_of f) } in
        let r =
          call_instruction g o execute
            (update_node nid (λ w. v) (set_node nid n s))
            v
            (record m { tree = some (flow_tree f) }) in
        handle_execute g o rewrite s m ≡ close_msg none r.msg (after_execute nid m.parent r)
  unfolding handle_execute run_new
  handle_execute_new {nid} s m f k fit h et ne =
      let n = new_node m nid m.parent (flow_tree f) in
      let e = k.known (set_node nid n s) n (record m { tree = some (flow_tree f) }) f fit refl in
      ground (arith, h.to, h.no_file, h.no_tree, et, ne, e)

  -- A node of its own for an order whose node has a tree, and the call of the instruction.
  pub handle_execute-Begun :
      {l : List (Text × Node)} {nid par : Text} {p : Fields} (s : Exec) (m : Msg) (f : Flow)
      (i : Instruction)
      → KnowsFlows
      → Fits f
      → IsExecute m nid par p
      → s.nodes ≡ l
      → s.msgs ≡ []
      → find_in nid l ≡ none
      → flon_node_tree s nid ≡ some (flow_tree f)
      → text_eq nid (codes "0") ≡ false
      → lookup_instruction g o execute (head_of f) ≡ some i
      → Begun (handle_execute g o rewrite s m) [] l nid i m f
  handle_execute-Begun {l} {nid} s m f i k fit h es em fresh et ne el =
      let n = new_node m nid m.parent (flow_tree f) in
      let v = record n { inst = some (head_of f) } in
      let m' = record m { tree = some (flow_tree f) } in
      let s1 = update_node nid (λ w. v) (set_node nid n s) in
      let h1 : Runs v nid (head_of f) =
        unfold new_node in
        record { id = refl; runs = refl; no_bastards = refl; no_timers = refl } in
      let (fs, e) = call_instruction_execute s1 v m' i nid (head_of f) h1 el h.no_trigger in
      let (h2, ep, et') = Runs-add_vars fs v nid (head_of f) h1 in
      let e1 : s1.nodes ≡ with_node l nid v =
        ap (update_in nid (λ w. v)) (ap (set_in nid n) es ∙ set_in-with_node nid n l fresh)
        ∙ update_in-with_node nid (λ w. v) n l fresh in
      record {
        state = update_node nid (λ w. add_vars fs v) s1;
        node = add_vars fs v;
        msg = m';
        node-Runs = h2;
        parent = ep;
        kept_tree = et';
        nodes =
            ap (update_in nid (λ w. add_vars fs v)) e1
            ∙ update_in-with_node nid (λ w. add_vars fs v) v l fresh;
        messages = em;
        tree = refl;
        payload = refl;
        sender = refl;
        goes_on =
            handle_execute_new s m f k fit h et ne
            ∙ ap (λ (r : Reply). close_msg none r.msg (after_execute nid m.parent r)) e;
      }
