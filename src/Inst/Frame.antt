-- ===== src/Inst/Frame.antt =====
-- What an order to execute a child leaves alone.
use flon.Base.{◌≡◌, refl, ◌∙◌, Option, some}
use flon.Base.Text.{Text}
use flon.Json.{Value}
use flon.State.{Node, Msg, Exec, find_node, queue_msg}
use flon.State.Store.{find_node-update_at}
use flon.State.Tree.{flon_node_tree}
use flon.State.Tree.Frame.{KeepsTree, flon_node_tree-update_node, flon_node_tree-nodes}
use flon.Inst.{queue_child_execute, push_child}

push-KeepsTree : (next : Text) → KeepsTree (λ v. record v { children = push_child next v.children })
push-KeepsTree next = record { same_tree = λ v. refl; same_parent = λ v. refl }

-- Every tree is found as before.
pub flon_node_tree-queue_child_execute :
    (next : Text) (node : Node) (m : Msg) (tree vars : Option Value) (s : Exec) (j : Text)
    → flon_node_tree (queue_child_execute next node m tree vars s) j ≡ flon_node_tree s j
unfolding queue_child_execute queue_msg
flon_node_tree-queue_child_execute next node m tree vars s j =
    flon_node_tree-update_node _ node.nid j (push-KeepsTree next) ∙ flon_node_tree-nodes _ s j refl

-- The node that gave the order has one more child, and is otherwise as before.
pub find_node-queue_child_execute :
    (next : Text) (node : Node) (m : Msg) (tree vars : Option Value) (s : Exec) (nid : Text)
    {v : Node}
    → node.nid ≡ nid
    → find_node s nid ≡ some v
    → find_node (queue_child_execute next node m tree vars s) nid
      ≡ some (record v { children = push_child next v.children })
unfolding queue_child_execute queue_msg
find_node-queue_child_execute next node m tree vars s nid q e =
    find_node-update_at _ nid node.nid _ q (unfold find_node in e)
