-- ===== src/Flows/Turns.antt =====
-- src/fl_executor.c: one turn of the loop of flon_execut, on a list of one message, and what the
-- answer of an instruction leaves in the list.
use flon.Base.{
  ℕ, suc, ◌+◌, ◌≡◌, refl, ◌∙◌, ap, sym, subst, arith, Option, none, some, List, [], ◌∷◌, ◌++◌,
}
use flon.Base.Text.{Text, codes}
use flon.Ids.{Grammar}
use flon.Json.{Fields, obj}
use flon.State.{
  Node, Msg, empty_msg, Exec, find_in, find_node, remove_in, remove_node, parent_nid, queue_msg,
  stamp,
}
use flon.State.Tree.{flon_parent_nid}
use flon.Inst.{Reply, Outcome}
use flon.Inst.Table.{after_call, Others, receive}
use flon.Executor.{
  Rewriter, transient_loop, handle_execute, handle_return, after_return, after_execute, close_msg,
  queue_over,
}
use flon.Flows.Nodes.{with_node, find_in-with_node, remove_in-with_node}

-- A message that tells a node of another one, with the fields of its payload.
pub record IsReceive (m : Msg) (nid from : Text) (p : Fields) : Type 0 where
  pub point : m.point ≡ some (codes "receive")
  pub to : m.nid ≡ some nid
  pub sender : m.from ≡ some from
  pub no_trigger : m.trigger ≡ none
  pub no_file : m.fname ≡ none
  pub fields : m.payload ≡ some (obj p)

-- An order of a node to execute a child.
pub record IsExecute (m : Msg) (nid parent : Text) (p : Fields) : Type 0 where
  pub point : m.point ≡ some (codes "execute")
  pub to : m.nid ≡ some nid
  pub orderer : m.parent ≡ some parent
  pub no_sender : m.from ≡ none
  pub no_tree : m.tree ≡ none
  pub no_vars : m.vars ≡ none
  pub no_trigger : m.trigger ≡ none
  pub no_file : m.fname ≡ none
  pub fields : m.payload ≡ some (obj p)

-- The nodes of an execution, and the last message that it has to handle, behind those of `ms`.
abbrev pub WaitsAfter : List Msg → Exec → List (Text × Node) → (Msg → Type 0) → Type 0
WaitsAfter ms s l P = (s.nodes ≡ l) × (m : Msg) × (s.msgs ≡ ms ++ m ∷ []) × P m

abbrev pub ToldAfter : List Msg → Exec → List (Text × Node) → Text → Text → Fields → Type 0
ToldAfter ms s l nid from p = WaitsAfter ms s l (λ m. IsReceive m nid from p)

abbrev pub OrderedAfter : List Msg → Exec → List (Text × Node) → Text → Text → Fields → Type 0
OrderedAfter ms s l nid parent p = WaitsAfter ms s l (λ m. IsExecute m nid parent p)

abbrev pub Told : Exec → List (Text × Node) → Text → Text → Fields → Type 0
Told s l nid from p = ToldAfter [] s l nid from p

abbrev pub Ordered : Exec → List (Text × Node) → Text → Text → Fields → Type 0
Ordered s l nid parent p = OrderedAfter [] s l nid parent p

-- What an instruction leaves: the nodes, the messages from before, and the payload.
pub record Leaves (ms : List Msg) (r : Reply) (l : List (Text × Node)) (p : Fields) : Type 0 where
  pub nodes : r.state.nodes ≡ l
  pub messages : r.state.msgs ≡ ms
  pub fields : r.msg.payload ≡ some (obj p)

pub close_msg-nodes : (m : Msg) (s : Exec) → (close_msg none m s).nodes ≡ s.nodes
close_msg-nodes m s =
    elim s.msg_log
      as (λ (o : Option (List Msg)).
        (elim o as (λ _. Exec) [
          | none ↦ s
          | some l ↦ record s { msg_log = some (l ++ m ∷ []) }
        ]).nodes
        ≡ s.nodes) [ none ↦ refl | some l ↦ refl ]

pub close_msg-msgs : (m : Msg) (s : Exec) → (close_msg none m s).msgs ≡ s.msgs
close_msg-msgs m s =
    elim s.msg_log
      as (λ (o : Option (List Msg)).
        (elim o as (λ _. Exec) [
          | none ↦ s
          | some l ↦ record s { msg_log = some (l ++ m ∷ []) }
        ]).msgs
        ≡ s.msgs) [ none ↦ refl | some l ↦ refl ]

pub Waits-close_msg :
    {l : List (Text × Node)} {P : Msg → Type 0} (ms : List Msg) (m : Msg) (s : Exec)
    → WaitsAfter ms s l P
    → WaitsAfter ms (close_msg none m s) l P
Waits-close_msg ms m s (e, n, em, h) = (close_msg-nodes m s ∙ e, n, close_msg-msgs m s ∙ em, h)

-- What the handlers make of the answer of an instruction.
abbrev pub closed_execute : Text → Option Text → Reply → Exec
closed_execute nid parent r =
    let q = after_call nid r in close_msg none q.msg (after_execute nid parent q)

abbrev pub closed_return : Text → Option Text → Reply → Exec
closed_return nid parent r =
    let q = after_call nid r in close_msg none q.msg (after_return nid parent q)

-- The message that both handlers queue when a node is over.
abbrev about_end : Text → Text → Reply → Msg
about_end nid from r =
    stamp (codes "receive") nid (some from) (r.state.msg_counter + 1)
      (record empty_msg { payload = r.msg.payload })

told :
    {p : Fields} (nid from : Text) (r : Reply)
    → r.msg.payload ≡ some (obj p)
    → IsReceive (about_end nid from r) nid from p
unfolding stamp
told nid from r e = record {
  point = refl;
  to = refl;
  sender = refl;
  no_trigger = refl;
  no_file = refl;
  fields = rw e refl;
}

abbrev queue_end : Text → Text → Reply → Exec
queue_end nid from r =
    queue_msg (codes "receive") nid (some from) (record empty_msg { payload = r.msg.payload })
      r.state

queue_end-Told :
    {ms : List Msg} {l : List (Text × Node)} {p : Fields} (nid from : Text) (r : Reply)
    → Leaves ms r l p
    → ToldAfter ms (queue_end nid from r) l nid from p
unfolding queue_msg
queue_end-Told nid from r h = (
  h.nodes,
  about_end nid from r,
  ap (λ l. l ++ about_end nid from r ∷ []) h.messages,
  told nid from r h.fields,
)

after_execute_over :
    (nid : Text) (q : Option Text) (r : Reply)
    → r.outcome ≡ Outcome.over
    → after_execute nid q r ≡ queue_end nid nid r
unfolding after_execute
after_execute_over nid q r e = ground arith

-- A node that is over after an execute tells itself.
pub after_execute-Told :
    {ms : List Msg} {l : List (Text × Node)} {p : Fields} (nid : Text) (q : Option Text) (r : Reply)
    → r.outcome ≡ Outcome.over
    → Leaves ms r l p
    → ToldAfter ms (after_execute nid q r) l nid nid p
after_execute-Told {ms} {l} {p} nid q r eo h =
    subst (λ s. ToldAfter ms s l nid nid p) (sym (after_execute_over nid q r eo))
      (queue_end-Told nid nid r h)

after_return_over :
    (nid par : Text) (q : Option Text) (r : Reply)
    → r.outcome ≡ Outcome.over
    → flon_parent_nid r.state nid ≡ some par
    → after_return nid q r ≡ remove_node nid (queue_end par nid r)
unfolding after_return queue_over
after_return_over nid par q r e ep = ground arith

flon_parent_nid-with_node :
    (l : List (Text × Node)) (s : Exec) (nid par : Text) (v : Node)
    → s.nodes ≡ with_node l nid v
    → find_in nid l ≡ none
    → v.parent ≡ parent_nid par
    → flon_parent_nid s nid ≡ some par
unfolding flon_parent_nid find_node
flon_parent_nid-with_node l s nid par v e fresh ep =
    let found = ap (find_in nid) e ∙ find_in-with_node nid v l fresh in ground arith

-- A node that is over after a receive tells its parent and goes.
pub after_return-Told :
    {l : List (Text × Node)} {p : Fields} (nid par : Text) (v : Node) (q : Option Text) (r : Reply)
    → r.outcome ≡ Outcome.over
    → Leaves [] r (with_node l nid v) p
    → find_in nid l ≡ none
    → v.parent ≡ parent_nid par
    → Told (after_return nid q r) l par nid p
after_return-Told {l} {p} nid par v q r eo h fresh ep =
    let (e, n, em, w) = queue_end-Told par nid r h in
    let gone = flon_parent_nid-with_node l r.state nid par v h.nodes fresh ep in
    subst (λ s. Told s l par nid p) (sym (after_return_over nid par q r eo gone))
      (ap (remove_in nid) e ∙ remove_in-with_node nid v l fresh, n, em, w)

module _ (g : Grammar) (o : Others) (rewrite : Rewriter) where
  -- The loop takes the message.
  pub transient_loop-receive :
      {nid from : Text} {p : Fields} (f : ℕ) (s : Exec) (m : Msg)
      → s.msgs ≡ m ∷ []
      → IsReceive m nid from p
      → transient_loop g o rewrite (suc f) s
        ≡ transient_loop g o rewrite f
            (handle_return g o rewrite receive (record s { msgs = [] }) m)
  unfolding transient_loop
  transient_loop-receive f s m e h = ground (arith, e, h.point)

  pub transient_loop-execute :
      {nid parent : Text} {p : Fields} (f : ℕ) (s : Exec) (m : Msg)
      → s.msgs ≡ m ∷ []
      → IsExecute m nid parent p
      → transient_loop g o rewrite (suc f) s
        ≡ transient_loop g o rewrite f (handle_execute g o rewrite (record s { msgs = [] }) m)
  unfolding transient_loop
  transient_loop-execute f s m e h = ground (arith, e, h.point)

  -- So many turns of the loop lead from one state to the other.
  abbrev pub Reaches : Exec → Exec → ℕ → Type 0
  Reaches s t k =
      (n fuel : ℕ)
      → n ≡ k + fuel
      → transient_loop g o rewrite n s ≡ transient_loop g o rewrite fuel t

  pub Reaches-one :
      (s t : Exec)
      → ((fuel : ℕ) → transient_loop g o rewrite (suc fuel) s ≡ transient_loop g o rewrite fuel t)
      → Reaches s t 1
  Reaches-one s t h n fuel e =
      let q : n ≡ suc fuel = omega (arith, e) in ap (λ i. transient_loop g o rewrite i s) q ∙ h fuel

  pub Reaches-trans :
      (s t u : Exec) (j k i : ℕ) → Reaches s t j → Reaches t u k → i ≡ j + k → Reaches s u i
  Reaches-trans s t u j k i a b q n fuel e =
      a n (k + fuel) (omega (arith, e, q)) ∙ b (k + fuel) fuel refl

  pub Reaches-none : (s : Exec) → Reaches s s 0
  Reaches-none s n fuel e =
      let q : n ≡ fuel = omega (arith, e) in ap (λ i. transient_loop g o rewrite i s) q
