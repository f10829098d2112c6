-- ===== src/Executor/Lives.antt =====
-- src/fl_executor.c: the end of a node, by what handle_return makes of each answer.
use flon.Base.{◌≡◌, refl, ◌∙◌, ap, Option, none, some, List, [], ◌∷◌, ◌++◌, if◌then◌else◌}
use flon.Base.Text.{Text, codes, text_eq}
use flon.Ids.{Grammar}
use flon.Json.{Value}
use flon.State.{
  Node, Msg, empty_msg, Exec, find_node, find_in, remove_in, remove_node, queue_msg, stamp,
  move_to_processed, move_to_rejected,
}
use flon.State.Store.{IsDistinct, find_in-remove_in}
use flon.State.Tree.{flon_parent_nid}
use flon.Inst.{Reply, Outcome}
use flon.Inst.Table.{Dir, Others, call_instruction}
use flon.Inst.Extends.Tables.{IsTameOthers, Extends-call_instruction}
use flon.Executor.{
  Rewriter, nid_or_root, last_error, queue_failed, queue_over, after_return, close_msg,
  handle_return,
}

-- What a message about the end of the node `nid` says, with a parent and without one.
abbrev pub TellsEnd : Text → Option Text → Msg → Type 0
TellsEnd nid (some p) m =
    (m.point ≡ some (codes "receive")) × (m.nid ≡ some p) × (m.from ≡ some nid)
TellsEnd nid none m =
    (m.point ≡ some (if text_eq nid (codes "0") then codes "terminated" else codes "ceased"))
    × (m.nid ≡ some nid)

-- What a message about a failure says.
abbrev pub TellsFailure : Text → Option Value → Msg → Type 0
TellsFailure nid error m =
    (m.point ≡ some (codes "failed")) × (m.nid ≡ some nid) × (m.error ≡ error)

-- One message was added to those of `s`.
abbrev pub Queued : Exec → (Msg → Type 0) → Exec → Type 0
Queued s P t = (m : Msg) × (t.msgs ≡ s.msgs ++ m ∷ []) × P m

-- What is left of the node and what is told, by the answer of the instruction.
abbrev pub Settled : Text → Reply → Outcome → Exec → Type 0
Settled nid r Outcome.over t =
    Queued r.state (TellsEnd nid (flon_parent_nid r.state nid)) t
    × ((k : Text) → find_node t k ≡ (if text_eq nid k then none else find_node r.state k))
Settled nid r Outcome.ok t = (t.msgs ≡ r.state.msgs) × (t.nodes ≡ r.state.nodes)
Settled nid r _ t =
    Queued r.state (TellsFailure nid (last_error (find_node r.state nid))) t
    × (t.nodes ≡ r.state.nodes)

queue_over-TellsEnd :
    (nid : Text) (r : Reply)
    → Queued r.state (TellsEnd nid (flon_parent_nid r.state nid)) (queue_over nid r)
unfolding queue_over queue_msg stamp
queue_over-TellsEnd nid r = by_parent (flon_parent_nid r.state nid)
  where
    by_parent :
        (p : Option Text)
        → Queued r.state (TellsEnd nid p) (elim p as (λ _. Exec) [
          | some parent ↦
              queue_msg
                (codes "receive")
                parent
                (some nid)
                (record empty_msg { payload = r.msg.payload })
                r.state
          | none ↦
              queue_msg
                (if text_eq nid (codes "0") then codes "terminated" else codes "ceased")
                nid
                none
                (record empty_msg { payload = r.msg.payload })
                r.state
        ])
    by_parent none = (_, refl, (refl, refl))
    by_parent (some p) = (_, refl, (refl, refl, refl))

queue_over-nodes : (nid : Text) (r : Reply) → (queue_over nid r).nodes ≡ r.state.nodes
unfolding queue_over queue_msg
queue_over-nodes nid r =
    elim (flon_parent_nid r.state nid)
      as (λ p.
        (elim p as (λ _. Exec) [
          | some parent ↦
              queue_msg (codes "receive") parent (some nid)
                (record empty_msg { payload = r.msg.payload }) r.state
          | none ↦
              queue_msg (if text_eq nid (codes "0") then codes "terminated" else codes "ceased") nid
                none (record empty_msg { payload = r.msg.payload }) r.state
        ]).nodes
        ≡ r.state.nodes) [ none ↦ refl | some p ↦ refl ]

find_node-over :
    (nid k : Text) (r : Reply)
    → IsDistinct r.state.nodes
    → find_node (remove_node nid (queue_over nid r)) k
      ≡ (if text_eq nid k then none else find_node r.state k)
unfolding find_node
find_node-over nid k r d =
    ap (λ (l : List (Text × Node)). find_in k (remove_in nid l)) (queue_over-nodes nid r)
    ∙ find_in-remove_in nid k r.state.nodes d

queue_failed-TellsFailure :
    (nid : Text) (parent : Option Text) (r : Reply)
    → Queued r.state
        (TellsFailure nid (last_error (find_node r.state nid)))
        (queue_failed nid parent r)
      × ((queue_failed nid parent r).nodes ≡ r.state.nodes)
unfolding queue_msg stamp
queue_failed-TellsFailure nid parent r = ((_, refl, (refl, refl, refl)), refl)

-- after_return on every answer.
after_return-Settled :
    (nid : Text) (parent : Option Text) (r : Reply)
    → IsDistinct r.state.nodes
    → Settled nid r r.outcome (after_return nid parent r)
unfolding after_return
after_return-Settled nid parent r d = by_outcome r.outcome
  where
    by_outcome :
        (o : Outcome)
        → Settled nid r o (elim o as (λ _. Exec) [
          | Outcome.over ↦ remove_node nid (queue_over nid r)
          | Outcome.ok ↦ r.state
          | _ ↦ queue_failed nid parent r
        ])
    by_outcome Outcome.ok = (refl, refl)
    by_outcome Outcome.over =
        let q = queue_over-TellsEnd nid r in (q, λ k. find_node-over nid k r d)
    by_outcome Outcome.error = queue_failed-TellsFailure nid parent r
    by_outcome Outcome.unknown = queue_failed-TellsFailure nid parent r

-- The two handlers' ends leave nodes and messages alone.
close_msg-keeps :
    (fname : Option Text) (m : Msg) (t : Exec)
    → ((close_msg fname m t).msgs ≡ t.msgs) × ((close_msg fname m t).nodes ≡ t.nodes)
close_msg-keeps none m t = by_log t.msg_log
  where
    by_log :
        (l : Option (List Msg))
        → (let u = elim l as (λ _. Exec) [
          | none ↦ t
          | some l ↦ record t { msg_log = some (l ++ m ∷ []) }
        ] in
            (u.msgs ≡ t.msgs) × (u.nodes ≡ t.nodes))
    by_log none = (refl, refl)
    by_log (some l) = (refl, refl)
close_msg-keeps (some f) m t = by_log t.msg_log
  where
    moved : Exec
    moved = move_to_processed (some f) t

    by_log :
        (l : Option (List Msg))
        → (let u = elim l as (λ _. Exec) [
          | none ↦ moved
          | some l ↦ record moved { msg_log = some (l ++ m ∷ []) }
        ] in
            (u.msgs ≡ t.msgs) × (u.nodes ≡ t.nodes))
    by_log none = (refl, refl)
    by_log (some l) = (refl, refl)

Settled-same :
    (nid : Text) (r : Reply) (o : Outcome) (t u : Exec)
    → (u.msgs ≡ t.msgs) × (u.nodes ≡ t.nodes)
    → Settled nid r o t
    → Settled nid r o u
unfolding find_node
Settled-same nid r Outcome.over t u e x =
    ((x.0.0, e.0 ∙ x.0.1, x.0.2), λ k. ap (λ (l : List (Text × Node)). find_in k l) e.1 ∙ x.1 k)
Settled-same nid r Outcome.ok t u e x = (e.0 ∙ x.0, e.1 ∙ x.1)
Settled-same nid r Outcome.error t u e x = ((x.0.0, e.0 ∙ x.0.1, x.0.2), e.1 ∙ x.1)
Settled-same nid r Outcome.unknown t u e x = ((x.0.0, e.0 ∙ x.0.1, x.0.2), e.1 ∙ x.1)

handle_return-found :
    (g : Grammar) (o : Others) (rewrite : Rewriter) (dir : Dir) (s : Exec) (m : Msg) (node : Node)
    → find_node s (nid_or_root m) ≡ some node
    → (let r = call_instruction g o dir s node m in
        handle_return g o rewrite dir s m
        ≡ close_msg m.fname r.msg (after_return (nid_or_root m) m.parent r))
unfolding handle_return
handle_return-found g o rewrite dir s m node e =
    ap
      (λ (x : Option Node). elim x as (λ _. Exec) [
        | none ↦ move_to_rejected m.fname (codes "node not found") s
        | some v ↦
            let r = call_instruction g o dir s v m in
            close_msg m.fname r.msg (after_return (nid_or_root m) m.parent r)
      ])
      e

-- When a node hears a message, then one of three things comes of it, by the answer of its
-- instruction: the node goes and its parent is told, or, without a parent, the end of the
-- execution or of the node; or nothing more; or a failure is told, with the last error of the
-- node, which stays.
pub handle_return-Settled :
    (g : Grammar) (o : Others) (rewrite : Rewriter) (dir : Dir) (s : Exec) (m : Msg) (node : Node)
    → IsTameOthers o
    → IsDistinct s.nodes
    → find_node s (nid_or_root m) ≡ some node
    → (let r = call_instruction g o dir s node m in
        Settled (nid_or_root m) r r.outcome (handle_return g o rewrite dir s m))
handle_return-Settled g o rewrite dir s m node tame d e =
    let r = call_instruction g o dir s node m in
    let x = Extends-call_instruction g o dir s node m tame in
    let t = after_return (nid_or_root m) m.parent r in
    let step : handle_return g o rewrite dir s m ≡ close_msg m.fname r.msg t =
      handle_return-found g o rewrite dir s m node e in
    let k = close_msg-keeps m.fname r.msg t in
    Settled-same (nid_or_root m) r r.outcome t _
      (ap (λ (u : Exec). u.msgs) step ∙ k.0, ap (λ (u : Exec). u.nodes) step ∙ k.1)
      (after_return-Settled (nid_or_root m) m.parent r (x.distinct d))
