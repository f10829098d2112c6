-- ===== src/Flows/Starts.antt =====
-- src/n/fl_seq_con.c: the launch of a sequence whose node stands behind the others.
use flon.Base.{◌≡◌, refl, ◌∙◌, ap, arith, none, some, List, [], false}
use flon.Base.Text.{Text}
use flon.Ids.{Grammar}
use flon.Json.{Value, Fields, obj, size, at}
use flon.State.{Node, Msg, Exec, find_in, update_in, update_node}
use flon.State.Tree.{flon_node_tree, item}
use flon.Inst.{Reply, reply, over, ok, queue_child_execute, push_child}
use flon.Inst.Seq.{next_child, seq_rcv, seq_exe, collected, child_count}
use flon.Flows.{Flow, Flows, then, none_left, sequence, flow_tree, flow_trees}
use flon.Flows.Nodes.{with_node, update_in-with_node}
use flon.Flows.Turns.{OrderedAfter, Leaves}
use flon.Flows.Leaves.{Runs}
use flon.Flows.Sequences.{Follows, Follows-trans, seq_rcv-ok}

module _ (g : Grammar) (l : List (Text × Node)) where
  abbrev cleared : Node → Node
  cleared v = record v { children = some [] }

  cleared-Follows : (v : Node) (nid head : Text) → Runs v nid head → Follows v (cleared v) nid head
  cleared-Follows v nid head h = record {
    w-Runs = record {
      id = h.id;
      runs = h.runs;
      no_bastards = h.no_bastards;
      no_timers = h.no_timers;
    };
    same_parent = refl;
    same_tree = refl;
  }

  cleared-nodes :
      (s : Exec) (v : Node) (nid head : Text)
      → Runs v nid head
      → s.nodes ≡ with_node l nid v
      → find_in nid l ≡ none
      → (update_node v.nid cleared s).nodes ≡ with_node l nid (cleared v)
  cleared-nodes s v nid head h es fresh =
      ap (λ k. update_in k cleared s.nodes) h.id
      ∙ ap (update_in nid cleared) es
      ∙ update_in-with_node nid cleared v l fresh

  count_of_tree :
      (line : Text) (fs : Flows) (s : Exec) (v : Node) (m : Msg)
      → m.tree ≡ some (flow_tree (sequence line fs))
      → child_count s v m ≡ size (flow_trees fs)
  unfolding child_count flon.Inst.Seq.tree_of item at flow_tree
  count_of_tree line fs s v m e = rw e refl

  seq_exe-none :
      (line : Text) (s : Exec) (v : Node) (m : Msg)
      → m.tree ≡ some (flow_tree (sequence line none_left))
      → seq_exe false g s v m ≡ reply over (update_node v.nid cleared s) m
  unfolding seq_exe flow_trees size
  seq_exe-none line s v m e =
      ground (arith, count_of_tree line none_left (update_node v.nid cleared s) v m e)

  seq_exe-some :
      (line : Text) (f : Flow) (fs : Flows) (s : Exec) (v : Node) (m : Msg)
      → m.tree ≡ some (flow_tree (sequence line (then f fs)))
      → seq_exe false g s v m ≡ seq_rcv g (update_node v.nid cleared s) (cleared v) m
  unfolding seq_exe flow_trees size
  seq_exe-some line f fs s v m e =
      ground (arith, count_of_tree line (then f fs) (update_node v.nid cleared s) v m e)

  -- A sequence with no child is over at its launch.
  pub seq_exe-over :
      {ms : List Msg} {p : Fields} (line : Text) (s : Exec) (v : Node) (m : Msg) (nid head : Text)
      → Runs v nid head
      → s.nodes ≡ with_node l nid v
      → s.msgs ≡ ms
      → find_in nid l ≡ none
      → m.payload ≡ some (obj p)
      → m.tree ≡ some (flow_tree (sequence line none_left))
      → (t : Exec) × (w : Node) × (seq_exe false g s v m ≡ reply over t m)
        × Leaves ms (reply over t m) (with_node l nid w) p
        × Follows v w nid head
  seq_exe-over line s v m nid head h es em fresh ep et = (
    update_node v.nid cleared s,
    cleared v,
    seq_exe-none line s v m et,
    record { nodes = cleared-nodes s v nid head h es fresh; messages = em; fields = ep },
    cleared-Follows v nid head h,
  )

  -- Another one orders the execution of its first child.
  pub seq_exe-ok :
      {p : Fields} (ms : List Msg) (line : Text) (f : Flow) (fs : Flows) (s : Exec) (v : Node)
      (m : Msg) (nid head next : Text) (u : Value)
      → Runs v nid head
      → s.nodes ≡ with_node l nid v
      → s.msgs ≡ ms
      → find_in nid l ≡ none
      → m.payload ≡ some (obj p)
      → m.tree ≡ some (flow_tree (sequence line (then f fs)))
      → next_child g nid m ≡ some next
      → ((w : Node)
          → Follows v w nid head
          → (t : Exec) → t.nodes ≡ with_node l nid w
          → flon_node_tree t next ≡ some u)
      → (t : Exec) × (w : Node) × (seq_exe false g s v m ≡ reply ok t m)
        × OrderedAfter ms t (with_node l nid w) next nid p
        × Follows v w nid head
  seq_exe-ok ms line f fs s v m nid head next u h es em fresh ep et en eu =
      let c = cleared-Follows v nid head h in
      let s1 = update_node v.nid cleared s in
      let e1 = cleared-nodes s v nid head h es fresh in
      let (t, w, e, ordered, c2) =
        seq_rcv-ok g l ms s1 (cleared v) m nid head next u c.w-Runs e1 em fresh ep en
          (eu (cleared v) c s1 e1) in
      (
        t,
        w,
        seq_exe-some line f fs s v m et ∙ e,
        ordered,
        Follows-trans v (cleared v) w nid head c c2,
      )
