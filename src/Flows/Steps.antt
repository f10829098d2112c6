-- ===== src/Flows/Steps.antt =====
-- src/fl_executor.c: the turns of the loop for a noop and for a val.
use flon.Base.{ℕ, ◌≡◌, refl, ◌∙◌, ap, sym, subst, Option, none, some, List, [], false}
use flon.Base.Text.{Text, codes, text_eq}
use flon.Ids.{Grammar}
use flon.Json.{Value, Fields, obj, get, at}
use flon.State.{Node, Msg, Exec, find_in, find_node, update_in, update_node, parent_nid, new_node}
use flon.State.Tree.{flon_node_tree, item}
use flon.State.Tree.Frame.{flon_node_tree-nodes}
use flon.Inst.{Reply, Outcome, Instruction, over, reply}
use flon.Inst.Branch.{exe_noop, exe_val, attribute, attributes}
use flon.Inst.Cancel.{rcv_}
use flon.Inst.Table.{Others, receive, execute, lookup_instruction, after_call}
use flon.Executor.{Rewriter, handle_execute, handle_return, after_return, close_msg}
use flon.Flows.{Fits, Flow, noop, val, head_of, flow_tree, eval}
use flon.Flows.Nodes.{with_node, find_in-with_node, update_in-with_node}
use flon.Flows.Turns.{
  closed_execute, closed_return, IsReceive, Told, ToldAfter, Ordered, Leaves, Waits-close_msg,
  after_execute-Told, after_return-Told, transient_loop-receive, transient_loop-execute, Reaches,
  Reaches-one, Reaches-trans,
}
use flon.Flows.Leaves.{
  Runs, Begun, KnowsFlows, handle_return_found, call_instruction_receive, rcv_-leaf,
  handle_execute-Begun,
}

-- An instruction that is over at once, the payload being as the flow says.
abbrev pub AnswersAt : Instruction → Flow → Type 0
AnswersAt i f =
    (s : Exec) (v : Node) (m : Msg) (p : Fields)
    → m.tree ≡ some (flow_tree f)
    → m.payload ≡ some (obj p)
    → (a : Msg) × (i s v m ≡ reply over s a) × (a.payload ≡ some (obj (eval f p)))

pub exe_noop-AnswersAt : (line : Text) → AnswersAt exe_noop (noop line)
unfolding exe_noop eval
exe_noop-AnswersAt line s v m p et ep = (m, refl, ep)

val_attribute :
    (line : Text) (w : Value) (s : Exec) (v : Node) (m : Msg)
    → m.tree ≡ some (flow_tree (val line w))
    → attribute (codes "_0") (attributes s v m) ≡ some w
unfolding attributes flow_tree flon.Inst.Seq.tree_of item get at text_eq
val_attribute line w s v m et = rw et refl

pub exe_val-AnswersAt : (line : Text) (w : Value) → AnswersAt exe_val (val line w)
unfolding exe_val eval
exe_val-AnswersAt line w s v m p et ep = (_, refl, rw (ep, val_attribute line w s v m et) refl)

pub new_node-parent :
    {par : Text} (nid : Text) (m : Msg) (t : Value)
    → m.parent ≡ some par
    → (new_node m nid m.parent t).parent ≡ parent_nid par
unfolding new_node
new_node-parent nid m t e = rw e refl

pub new_node-tree :
    (nid : Text) (m : Msg) (par : Option Text) (t : Value)
    → text_eq nid (codes "0") ≡ false
    → (new_node m nid par t).tree ≡ none
unfolding new_node
new_node-tree nid m par t e = rw e refl

module _ (g : Grammar) (o : Others) (rewrite : Rewriter) where
  -- A node that runs and hears something: its instruction is called with the node as it is.
  pub handle_return-Told :
      {nid from : Text} {p : Fields} (l : List (Text × Node)) (s : Exec) (m : Msg) (v : Node)
      (i : Instruction) (head : Text)
      → Runs v nid head
      → lookup_instruction g o receive head ≡ some i
      → IsReceive m nid from p
      → s.nodes ≡ with_node l nid v
      → find_in nid l ≡ none
      → let r = after_call nid (i (update_node nid (λ w. v) s) v m) in
        handle_return g o rewrite receive s m ≡ close_msg none r.msg (after_return nid m.parent r)
  unfolding find_node
  handle_return-Told {nid} l s m v i head h el hm es fresh =
      handle_return_found g o rewrite s m v hm
        (ap (find_in nid) es ∙ find_in-with_node nid v l fresh)
      ∙ ap (λ (r : Reply). close_msg none r.msg (after_return nid m.parent r))
          (call_instruction_receive g o rewrite s v m i head h.runs el hm.no_trigger
            ∙ ap (λ k. after_call k (i (update_node k (λ w. v) s) v m)) h.id)

  -- What handle_return makes of the message of a leaf to itself.
  pub leaf_hears :
      {nid head : Text} {p : Fields} (l : List (Text × Node)) (s : Exec) (v : Node) (m : Msg)
      → Runs v nid head
      → lookup_instruction g o receive head ≡ some rcv_
      → find_in nid l ≡ none
      → s.nodes ≡ with_node l nid v
      → s.msgs ≡ []
      → IsReceive m nid nid p
      → (r : Reply) × (r.outcome ≡ over)
        × Leaves [] r (with_node l nid v) p
        × (handle_return g o rewrite receive s m
            ≡ close_msg none r.msg (after_return nid m.parent r))
  leaf_hears {nid} {head} {p} l s v m h el fresh es em hm =
      let s' = update_node nid (λ w. v) s in
      (
        reply over s' m,
        refl,
        record {
          nodes = ap (update_in nid (λ w. v)) es ∙ update_in-with_node nid (λ w. v) v l fresh;
          messages = em;
          fields = hm.fields;
        },
        handle_return-Told l s m v rcv_ head h el hm es fresh
            ∙ ap (closed_return nid m.parent)
                (rcv_-leaf g o rewrite s' v m h.no_bastards h.no_timers),
      )

  -- A leaf that is over hears itself, goes, and tells its parent.
  leaf_tells :
      {l : List (Text × Node)} {nid par head : Text} {p : Fields} (s : Exec) (v : Node)
      → Runs v nid head
      → lookup_instruction g o receive head ≡ some rcv_
      → v.parent ≡ parent_nid par
      → find_in nid l ≡ none
      → Told s (with_node l nid v) nid nid p
      → (t : Exec) × Reaches g o rewrite s t 1 × Told t l par nid p
  leaf_tells {l} {nid} {par} {head} {p} s v h el ep fresh (es, m, em, hm) =
      let rest = record s { msgs = [] } in
      let (r, eo, left, e) = leaf_hears l rest v m h el fresh es refl hm in
      (
        handle_return g o rewrite receive rest m,
        Reaches-one g o rewrite s _ (λ fuel. transient_loop-receive g o rewrite fuel s m em hm),
        subst (λ t. Told t l par nid p) (sym e)
            (Waits-close_msg [] r.msg _ (after_return-Told nid par v m.parent r eo left fresh ep)),
      )

  -- What running a flow comes to: the nodes are the ones from before, and the parent hears of it.
  abbrev pub RunsTo : Exec → List (Text × Node) → Text → Text → Fields → ℕ → Type 0
  RunsTo s l par nid p k = (t : Exec) × Reaches g o rewrite s t k × Told t l par nid p

  -- A leaf is over at its launch, and tells itself.
  pub leaf_launched :
      {ms : List Msg} {l : List (Text × Node)} {nid : Text} {p : Fields} {i : Instruction} {m : Msg}
      {f : Flow} (t : Exec)
      → AnswersAt i f
      → m.payload ≡ some (obj p)
      → (b : Begun g o rewrite t ms l nid i m f)
      → ToldAfter ms t (with_node l nid b.node) nid nid (eval f p)
  leaf_launched {ms} {l} {nid} {p} {m = m} {f = f} t a e b =
      let (m', ei, ep) = a b.state b.node b.msg p b.tree (b.payload ∙ e) in
      let e' = b.goes_on ∙ ap (closed_execute nid m.parent) ei in
      let left : Leaves ms (reply over b.state m') (with_node l nid b.node) (eval f p) = record {
        nodes = b.nodes;
        messages = b.messages;
        fields = ep;
      } in
      subst (λ t. ToldAfter ms t (with_node l nid b.node) nid nid (eval f p)) (sym e')
        (Waits-close_msg ms m' _
          (after_execute-Told nid m.parent (reply over b.state m') refl left))

  pub leaf-RunsTo :
      {l : List (Text × Node)} {nid par : Text} {p : Fields} (s : Exec) (f : Flow) (i : Instruction)
      → KnowsFlows g o rewrite
      → Fits f
      → AnswersAt i f
      → lookup_instruction g o execute (head_of f) ≡ some i
      → lookup_instruction g o receive (head_of f) ≡ some rcv_
      → find_in nid l ≡ none
      → text_eq nid (codes "0") ≡ false
      → flon_node_tree s nid ≡ some (flow_tree f)
      → Ordered s l nid par p
      → RunsTo s l par nid (eval f p) 2
  leaf-RunsTo {l} {nid} {par} {p} s f i k fit a ee er fresh ne et (es, m, em, hm) =
      let rest = record s { msgs = [] } in
      let b =
        handle_execute-Begun g o rewrite rest m f i k fit hm es refl fresh
          (flon_node_tree-nodes rest s nid refl ∙ et) ne ee in
      let t = handle_execute g o rewrite rest m in
      let told = leaf_launched t a hm.fields b in
      let child_of = b.parent ∙ new_node-parent nid m (flow_tree f) hm.orderer in
      let (u, turn, end) = leaf_tells {par = par} t b.node b.node-Runs er child_of fresh told in
      let first =
        Reaches-one g o rewrite s t (λ fuel. transient_loop-execute g o rewrite fuel s m em hm) in
      (u, Reaches-trans g o rewrite s t u 1 1 2 first turn refl, end)
