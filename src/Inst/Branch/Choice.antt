-- ===== src/Inst/Branch/Choice.antt =====
-- Which branch if, unless, ife and unlesse take.
use flon.Base.{
  ℕ, ◌≡◌, ◌≢◌, arith, Bool, true, false, not, ◌&&◌, Option, some, [], ◌∷◌, ◌++◌, if◌then◌else◌,
  is_some,
}
use flon.Base.Text.{Text, codes, text_eq_refl, text_eq_iff, text_eq}
use flon.Ids.{Grammar, nid_child}
use flon.Ids.Paths.{nid_of, IsNode, IsCounter}
use flon.Ids.Next.{ParsesNids, nid_next-nid_child}
use flon.Json.{bool}
use flon.State.{Node, Msg, Exec, ret, set_ret, queue_msg}
use flon.State.Tree.{flon_node_tree}
use flon.Inst.{Reply, over, ok, ret_to_boolean, queue_child_execute}
use flon.Inst.Seq.Order.{execute_order, nid_child-ne}
use flon.Inst.Branch.{rcv_if, rcv_ife, run_child, is_inst}

-- With `go` and a tree the child `next` is ordered, with the payload of the message `m`; the node
-- is over and orders nothing otherwise.
pub record Takes (go : Bool) (s : Exec) (node : Node) (m : Msg) (next : Text) (r : Reply)
    : Type 0 where
  pub takes : r.outcome ≡ (if go && is_some (flon_node_tree s next) then ok else over)
  pub orders : r.state.msgs ≡ (
      if go && is_some (flon_node_tree s next)
      then s.msgs ++ execute_order next node m s ∷ []
      else s.msgs)
  pub answer : r.msg ≡ m

run_child-Takes :
    (s : Exec) (node : Node) (m : Msg) (next : Text)
    → Takes true s node m next (run_child (some next) s node m)
unfolding run_child queue_child_execute queue_msg
run_child-Takes s node m next = ground arith

-- The truth that the condition of an `if` or `unless` has for it.
abbrev pub holds : Node → Msg → Bool
holds node m =
    if is_inst "unless" node then not (ret_to_boolean (ret m)) else ret_to_boolean (ret m)

-- What the payload says about it afterwards: only `unless` writes its result there.
abbrev pub if_answer : Node → Msg → Msg
if_answer node m = if is_inst "unless" node then set_ret (bool (holds node m)) m else m

apart :
    {nd : Text} (c : Option Text) (i : ℕ)
    → IsNode nd
    → text_eq (nid_of nd c) (nid_child (nid_of nd c) i) ≡ false
apart {nd} c i h = ground (
  arith,
  nid_child-ne c i h,
  text_eq_iff (nid_child (nid_of nd c) i) (nid_of nd c),
  text_eq_iff (nid_of nd c) (nid_child (nid_of nd c) i),
)

module _ {g : Grammar} {nd : Text} (p : ParsesNids g) (c : Option Text) (s : Exec) (node : Node)
    (m : Msg) (h : IsNode nd) (k : IsCounter c) (nz : c ≢ some (codes "0"))
    (en : node.nid ≡ nid_of nd c) (e : m.from ≡ some (nid_child (nid_of nd c) 0)) where
  -- When the condition of an if, elsif or elif answers, the child behind it is run exactly if the
  -- answer counts as true, and for unless exactly if it does not; the node is over otherwise.
  pub rcv_if_condition :
      Takes (holds node m) s node (if_answer node m) (nid_child (nid_of nd c) 1) (rcv_if g s node m)
  unfolding rcv_if run_child queue_child_execute queue_msg
  rcv_if_condition = ground (
    arith,
    apart c 0 h,
    text_eq_refl (nid_child (nid_of nd c) 0),
    nid_next-nid_child p c 0 1 h k nz (omega arith),
  )

  -- The truth that the condition of an `ife` or `unlesse` has for it.
  abbrev pub chosen : Bool
  chosen = if is_inst "ife" node then ret_to_boolean (ret m) else not (ret_to_boolean (ret m))

  -- When the condition of an ife answers, its second child is run if the answer counts as true and
  -- its third one if not, where it has that child; unlesse has them the other way round. The
  -- payload's ret says which.
  pub rcv_ife_condition :
      Takes true s node
        (set_ret (bool chosen) m)
        (nid_child (nid_of nd c) (if chosen then 1 else 2))
        (rcv_ife g s node m)
  unfolding rcv_ife run_child queue_child_execute queue_msg
  rcv_ife_condition = ground (
    arith,
    text_eq_refl (nid_child (nid_of nd c) 0),
    nid_next-nid_child p c 0 1 h k nz (omega arith),
    nid_next-nid_child p c 0 2 h k nz (omega arith),
  )
