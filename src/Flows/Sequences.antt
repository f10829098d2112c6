-- ===== src/Flows/Sequences.antt =====
-- src/n/fl_seq_con.c: a sequence whose node stands behind the others, when it turns to a child and
-- when it has none left.
use flon.Base.{ℕ, ◌+◌, ◌≡◌, refl, ◌∙◌, ap, arith, none, some, List, [], ◌∷◌, ◌++◌}
use flon.Base.Text.{Text, codes}
use flon.Ids.{Grammar}
use flon.Json.{Value, Fields, obj}
use flon.State.{Node, Msg, empty_msg, Exec, find_in, update_in, update_node, queue_msg, stamp}
use flon.State.Tree.{flon_node_tree}
use flon.State.Tree.Frame.{flon_node_tree-update_node}
use flon.Inst.{reply, over, ok, queue_child_execute, push_child}
use flon.Inst.Seq.{next_child, seq_rcv, collected}
use flon.Inst.Seq.Order.{collected-KeepsTree}
use flon.Flows.Nodes.{with_node, update_in-with_node}
use flon.Flows.Turns.{IsExecute, OrderedAfter, Leaves}
use flon.Flows.Leaves.{Runs}

-- The same node, but for its children and their answers.
pub record Follows (v w : Node) (nid head : Text) : Type 0 where
  pub w-Runs : Runs w nid head
  pub same_parent : w.parent ≡ v.parent
  pub same_tree : w.tree ≡ v.tree

pub Follows-refl : (v : Node) (nid head : Text) → Runs v nid head → Follows v v nid head
Follows-refl v nid head h = record { w-Runs = h; same_parent = refl; same_tree = refl }

pub Follows-trans :
    (u v w : Node) (nid head : Text)
    → Follows u v nid head
    → Follows v w nid head
    → Follows u w nid head
Follows-trans u v w nid head a b = record {
  w-Runs = b.w-Runs;
  same_parent = b.same_parent ∙ a.same_parent;
  same_tree = b.same_tree ∙ a.same_tree;
}

abbrev order_of : Text → Text → Msg → ℕ → Msg
order_of next nid m n =
    stamp (codes "execute") next (some nid) n
      (record empty_msg { payload = m.payload; tree = none; vars = none })

order_of-IsExecute :
    {p : Fields} (next nid : Text) (m : Msg) (n : ℕ)
    → m.payload ≡ some (obj p)
    → IsExecute (order_of next nid m n) next nid p
unfolding stamp
order_of-IsExecute next nid m n e = record {
  point = refl;
  to = refl;
  orderer = refl;
  no_sender = refl;
  no_tree = refl;
  no_vars = refl;
  no_trigger = refl;
  no_file = refl;
  fields = rw e refl;
}

module _ (g : Grammar) (l : List (Text × Node)) where
  abbrev heard : Msg → Node → Exec → Exec
  heard m v s = update_node v.nid (collected m) s

  heard-nodes :
      (s : Exec) (v : Node) (m : Msg) (nid head : Text)
      → Runs v nid head
      → s.nodes ≡ with_node l nid v
      → find_in nid l ≡ none
      → (heard m v s).nodes ≡ with_node l nid (collected m v)
  heard-nodes s v m nid head h es fresh =
      ap (λ k. update_in k (collected m) s.nodes) h.id
      ∙ ap (update_in nid (collected m)) es
      ∙ update_in-with_node nid (collected m) v l fresh

  heard_tree :
      (s : Exec) (v : Node) (m : Msg) (j : Text)
      → flon_node_tree (heard m v s) j ≡ flon_node_tree s j
  heard_tree s v m j = flon_node_tree-update_node s v.nid j (collected-KeepsTree m)

  seq_rcv-none :
      (s : Exec) (v : Node) (m : Msg) (next : Text)
      → next_child g v.nid m ≡ some next
      → flon_node_tree (heard m v s) next ≡ none
      → seq_rcv g s v m ≡ reply over (heard m v s) m
  unfolding seq_rcv
  seq_rcv-none s v m next en et = ground arith

  seq_rcv-some :
      (s : Exec) (v : Node) (m : Msg) (next : Text) (t : Value)
      → next_child g v.nid m ≡ some next
      → flon_node_tree (heard m v s) next ≡ some t
      → seq_rcv g s v m ≡ reply ok (queue_child_execute next v m none none (heard m v s)) m
  unfolding seq_rcv
  seq_rcv-some s v m next t en et = ground arith

  -- With no child left it is over, and orders nothing.
  pub seq_rcv-over :
      {ms : List Msg} {p : Fields} (s : Exec) (v : Node) (m : Msg) (nid head next : Text)
      → Runs v nid head
      → s.nodes ≡ with_node l nid v
      → s.msgs ≡ ms
      → find_in nid l ≡ none
      → m.payload ≡ some (obj p)
      → next_child g nid m ≡ some next
      → flon_node_tree s next ≡ none
      → (t : Exec) × (w : Node) × (seq_rcv g s v m ≡ reply over t m)
        × Leaves ms (reply over t m) (with_node l nid w) p
        × Follows v w nid head
  seq_rcv-over s v m nid head next h es em fresh ep en et = (
    heard m v s,
    collected m v,
    seq_rcv-none s v m next (ap (λ k. next_child g k m) h.id ∙ en) (heard_tree s v m next ∙ et),
    record { nodes = heard-nodes s v m nid head h es fresh; messages = em; fields = ep },
    record {
      w-Runs = record {
        id = h.id;
        runs = h.runs;
        no_bastards = h.no_bastards;
        no_timers = h.no_timers;
      };
      same_parent = refl;
      same_tree = refl;
    },
  )

  -- It orders the execution of its next child.
  pub seq_rcv-ok :
      {p : Fields} (ms : List Msg) (s : Exec) (v : Node) (m : Msg) (nid head next : Text)
      (u : Value)
      → Runs v nid head
      → s.nodes ≡ with_node l nid v
      → s.msgs ≡ ms
      → find_in nid l ≡ none
      → m.payload ≡ some (obj p)
      → next_child g nid m ≡ some next
      → flon_node_tree s next ≡ some u
      → (t : Exec) × (w : Node) × (seq_rcv g s v m ≡ reply ok t m)
        × OrderedAfter ms t (with_node l nid w) next nid p
        × Follows v w nid head
  unfolding queue_child_execute queue_msg
  seq_rcv-ok ms s v m nid head next u h es em fresh ep en et =
      let push = λ (w : Node). record w { children = push_child next w.children } in
      (
        queue_child_execute next v m none none (heard m v s),
        push (collected m v),
        seq_rcv-some s v m next u (ap (λ k. next_child g k m) h.id ∙ en)
            (heard_tree s v m next ∙ et),
        (
          ap (λ k. update_in k push (heard m v s).nodes) h.id
              ∙ ap (update_in nid push) (heard-nodes s v m nid head h es fresh)
              ∙ update_in-with_node nid push (collected m v) l fresh,
          order_of next nid m (s.msg_counter + 1),
          ap (λ k. k ++ order_of next v.nid m (s.msg_counter + 1) ∷ []) em
              ∙ ap (λ k. ms ++ order_of next k m (s.msg_counter + 1) ∷ []) h.id,
          order_of-IsExecute next nid m (s.msg_counter + 1) ep,
        ),
        record {
          w-Runs = record {
            id = h.id;
            runs = h.runs;
            no_bastards = h.no_bastards;
            no_timers = h.no_timers;
          };
          same_parent = refl;
          same_tree = refl;
        },
      )
