-- ===== src/Inst.antt =====
-- The instructions of src/n/ and the helpers of src/fl_exe_instructions.c that they share. An
-- instruction gets the state, the node as it stands in it, and the message; it returns an outcome
-- with the new state and the message, whose payload it may have changed.
pub mod Frame
pub mod Extends
pub mod Seq
pub mod Branch
pub mod Cancel
pub mod Table
pub mod Compare
pub mod Arith
pub mod Vars
mod Tests
use flon.Base.{
  ℕ, zero, suc, ◌+◌, Bool, true, false, not, ◌&&◌, Option, none, some, List, [], ◌∷◌, ◌++◌, ◌==◌,
  if◌then◌else◌, String,
}
use flon.Base.Text.{Text, codes, text_eq}
use flon.Base.Lists.{length}
use flon.Ids.{nid_child, Grammar, nid_next}
use flon.Json.{Value, Fields, bool, null}
use flon.State.{Node, Msg, empty_msg, Exec, find_node, update_node, queue_msg, ret}
use flon.State.Tree.{flon_node_tree}

-- The characters 'v', 'k', 'r' and '?' that instructions return.
pub data Outcome : Type 0 where
  over ok error unknown : Outcome

pub record Reply : Type 0 where
  pub outcome : Outcome
  pub state : Exec
  pub msg : Msg

abbrev pub Instruction : Type 0
Instruction = Exec → Node → Msg → Reply

abbrev pub reply : Outcome → Exec → Msg → Reply
reply o s m = record { outcome = o; state = s; msg = m }

-- ret_to_boolean(v)
unfoldable pub ret_to_boolean : Option Value → Bool
ret_to_boolean none = false
ret_to_boolean (some null) = false
ret_to_boolean (some (bool b)) = b
ret_to_boolean (some v) = true

-- `v && v->type == 'f'`
unfoldable pub is_false : Option Value → Bool
is_false (some (bool b)) = not b
is_false _ = false

-- is_msg_to_self(msg)
unfoldable pub is_msg_to_self : Msg → Bool
is_msg_to_self m = elim m.nid [
  | none ↦ false
  | some nid ↦ elim m.from [ none ↦ false | some from ↦ text_eq nid from ]
]

abbrev pub push_child : Text → Option (List Text) → Option (List Text)
push_child nid none = some (nid ∷ [])
push_child nid (some l) = some (l ++ nid ∷ [])

-- queue_child_execute(next_nid, node, msg, tree, vars), of src/n/fl_seq_con.c
unfoldable pub queue_child_execute : Text → Node → Msg → Option Value → Option Value → Exec → Exec
queue_child_execute next node m tree vars s =
    update_node node.nid (λ v. record v { children = push_child next v.children })
      (queue_msg (codes "execute") next (some node.nid)
        (record empty_msg { payload = m.payload; tree = tree; vars = vars }) s)
