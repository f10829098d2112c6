-- ===== src/Inst/Branch.antt =====
-- The instructions of src/n/ that decide: and, or, if, unless, elsif, ife, unlesse, else, and those
-- with no children of their own: noop, stall, val. A message with no sender, on which the C code
-- does not compare a null text, ends the node here.
pub mod Choice
pub mod Junction
use flon.Base.{
  ℕ, ◌+◌, Bool, true, false, not, ◌&&◌, ◌||◌, Option, none, some, ltb, if◌then◌else◌, String,
}
use flon.Base.Text.{Text, codes, text_eq, has_prefix}
use flon.Ids.{Grammar, nid_child, nid_next}
use flon.Json.{Value, Fields, bool, null, obj, get}
use flon.State.{Node, Msg, Exec, ret, set_ret}
use flon.State.Tree.{flon_node_tree, item}
use flon.Inst.{
  Reply, reply, over, ok, queue_child_execute, ret_to_boolean, is_false, is_msg_to_self,
}
use flon.Inst.Seq.{seq_rcv, seq_exe, value_size, tree_of}

-- Whether the inst of a node is this name.
abbrev pub is_inst : String → Node → Bool
is_inst name node = elim node.inst [ none ↦ false | some i ↦ text_eq i (codes name) ]

-- Whether the inst of a node starts so.
abbrev pub inst_starts : String → Node → Bool
inst_starts p node = elim node.inst [ none ↦ false | some i ↦ has_prefix (codes p) i ]

-- rcv_and(node, rcv), for and and or
unfoldable pub rcv_and : Grammar → Exec → Node → Msg → Reply
rcv_and g s node m =
    let b = ret_to_boolean (ret m) in
    let m' = set_ret (bool b) m in
    if is_msg_to_self m
    then seq_rcv g s node m
    else if (if is_inst "or" node then b else not b)
    then reply over s m'
    else seq_rcv g s node m'

-- exe_and(node, exe)
unfoldable pub exe_and : Grammar → Exec → Node → Msg → Reply
exe_and g s node m = seq_exe false g s node m

-- Runs the child `next`, if there is one and it has a tree.
unfoldable pub run_child : Option Text → Exec → Node → Msg → Reply
run_child none s node m = reply over s m
run_child (some next) s node m = elim (flon_node_tree s next) [
  | none ↦ reply over s m
  | some t ↦ reply ok (queue_child_execute next node m none none s) m
]

-- rcv_if(node, rcv), for if, unless, elsif and elif
unfoldable pub rcv_if : Grammar → Exec → Node → Msg → Reply
unfolding run_child
rcv_if g s node m = elim m.from [
  | none ↦ reply over s m
  | some from ↦
      let conditional = text_eq from (nid_child node.nid 0) in
      let unless = is_inst "unless" node in
      let b = ret_to_boolean (ret m) in
      let then_ = if conditional then (if unless then not b else b) else true in
      let m' = if conditional && unless then set_ret (bool then_) m else m in
      if text_eq node.nid from
      then reply over s m
      else if then_
      then run_child (nid_next g from 1) s node m'
      else reply over s m'
]

-- `fdja_size(fdja_l(exe, "tree.3"))`
abbrev pub msg_children : Msg → ℕ
msg_children m = value_size (item m.tree 3)

-- exe_if(node, exe)
unfoldable pub exe_if : Exec → Node → Msg → Reply
unfolding item
exe_if s node m =
    if ltb (msg_children m) 1
    then reply over s m
    else if inst_starts "el" node && not (is_false (ret m))
    then reply over s m
    else reply ok (queue_child_execute (nid_child node.nid 0) node m none none s) m

-- rcv_ife(node, rcv), for ife and unlesse
unfoldable pub rcv_ife : Grammar → Exec → Node → Msg → Reply
unfolding run_child
rcv_ife g s node m = elim m.from [
  | none ↦ reply over s m
  | some from ↦
      let b = ret_to_boolean (ret m) in
      let r = if is_inst "ife" node then b else not b in
      let m' = set_ret (bool r) m in
      if not (text_eq from (nid_child node.nid 0))
      then reply over s m
      else run_child (nid_next g from (if r then 1 else 2)) s node m'
]

-- exe_ife(node, exe)
unfoldable pub exe_ife : Exec → Node → Msg → Reply
unfolding item
exe_ife s node m =
    if ltb (msg_children m) 1
    then reply over s m
    else reply ok (queue_child_execute (nid_child node.nid 0) node m none none s) m

-- rcv_else(node, rcv)
unfoldable pub rcv_else : Grammar → Exec → Node → Msg → Reply
rcv_else g s node m = elim m.from [
  | none ↦ reply over s m
  | some from ↦ if text_eq node.nid from then reply over s m else seq_rcv g s node m
]

-- exe_else(node, exe)
unfoldable pub exe_else : Grammar → Exec → Node → Msg → Reply
unfolding item
exe_else g s node m =
    if ltb (msg_children m) 1
    then reply over s m
    else if not (is_false (ret m))
    then reply over s m
    else seq_exe false g s node m

-- exe_noop(node, exe)
unfoldable pub exe_noop : Exec → Node → Msg → Reply
exe_noop s node m = reply over s m

-- exe_stall(node, exe)
unfoldable pub exe_stall : Exec → Node → Msg → Reply
exe_stall s node m = reply ok s m

-- attributes(node, msg)
unfoldable pub attributes : Exec → Node → Msg → Option Value
unfolding tree_of item
attributes s node m = item (tree_of s node m) 1

abbrev pub attribute : Text → Option Value → Option Value
attribute k (some (obj fs)) = get k fs
attribute k _ = none

abbrev pub value_or_null : Option Value → Value
value_or_null none = null
value_or_null (some v) = v

-- exe_val(node, exe)
unfoldable pub exe_val : Exec → Node → Msg → Reply
unfolding attributes
exe_val s node m =
    reply over s (set_ret (value_or_null (attribute (codes "_0") (attributes s node m))) m)
