-- ===== src/Inst/Extends/Sequences.antt =====
-- src/n/fl_seq_con.c: what sequences and concurrences do to the messages.
use flon.Base.{ℕ, zero, suc, ◌+◌, Bool, none, ltb}
use flon.Ids.{Grammar}
use flon.State.{Node, Msg, Exec, update_node}
use flon.State.Tree.{flon_node_tree}
use flon.Inst.Seq.{
  seq_rcv, seq_exe, next_child, collected, child_count, con_rcv, con_loop, con_child, con_exe,
}
use flon.Inst.Extends.{
  Extends, Extends-refl, Extends-trans, Extends-update_node, Extends-queue_child_execute,
  Extends-if_reply, Extends-option_reply,
}

pub Extends-seq_rcv :
    (g : Grammar) (s : Exec) (node : Node) (m : Msg) → Extends s (seq_rcv g s node m).state
unfolding seq_rcv
Extends-seq_rcv g s node m = Extends-option_reply (next_child g node.nid m) _ _ seen (λ next.
    Extends-option_reply (flon_node_tree s' next) _ _ seen
      (λ t. Extends-trans seen (Extends-queue_child_execute next node m none none s')))
  where
    s' : Exec
    s' = update_node node.nid (collected m) s

    seen : Extends s s'
    seen = Extends-update_node node.nid (collected m) s

pub Extends-seq_exe :
    (track_ret : Bool) (g : Grammar) (s : Exec) (node : Node) (m : Msg)
    → Extends s (seq_exe track_ret g s node m).state
unfolding seq_exe
Extends-seq_exe track_ret g s node m =
    let seen = Extends-update_node node.nid _ s in
    Extends-if_reply _ _ _ (Extends-trans seen (Extends-seq_rcv g _ _ m)) seen

pub Extends-con_rcv : (s : Exec) (node : Node) (m : Msg) → Extends s (con_rcv s node m).state
unfolding con_rcv
Extends-con_rcv s node m =
    Extends-option_reply node.children _ _ (Extends-refl s)
      (λ children. Extends-update_node node.nid _ s)

Extends-con_loop : (node : Node) (m : Msg) (i n : ℕ) (s : Exec) → Extends s (con_loop node m i n s)
unfolding con_loop
Extends-con_loop node m i zero s = Extends-refl s
Extends-con_loop node m i (suc n) s =
    Extends-trans (Extends-queue_child_execute (con_child node.nid i) node m none none s)
      (Extends-con_loop node m (i + 1) n _)

pub Extends-con_exe : (s : Exec) (node : Node) (m : Msg) → Extends s (con_exe s node m).state
unfolding con_exe
Extends-con_exe s node m =
    Extends-if_reply (ltb (child_count s node m) 1) _ _ (Extends-refl s)
      (Extends-con_loop node m 0 (child_count s node m) s)
