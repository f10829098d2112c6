-- ===== src/Inst/Branch/Junction.antt =====
-- `and` and `or` over the answers of their children: what comes out, and when they stop.
use flon.Base.{
  ℕ, ◌+◌, ◌<◌, ◌≤◌, ◌≡◌, ◌≢◌, refl, ◌∙◌, arith, Bool, true, false, not, ◌&&◌, ◌||◌, Option, none,
  some, List, [], ◌∷◌, ltb, if◌then◌else◌, is_some, Bool-cases, inl, inr,
}
use flon.Base.Text.{Text, codes, text_eq_iff, text_eq_refl}
use flon.Base.Lists.{length}
use flon.Base.Hex.{u32}
use flon.Ids.{Grammar, nid_child}
use flon.Ids.Paths.{nid_of, IsNode, IsCounter}
use flon.Ids.Next.{ParsesNids}
use flon.Json.{Value, Fields, bool, obj, get-put}
use flon.State.{Node, Msg, Exec, ret, set_ret, find_node, update_node}
use flon.State.Store.{find_node-update_at}
use flon.State.Tree.{flon_node_tree}
use flon.State.Tree.Frame.{flon_node_tree-update_node}
use flon.Inst.{Reply, reply, Outcome, over, ok, ret_to_boolean, queue_child_execute, is_msg_to_self}
use flon.Inst.Frame.{flon_node_tree-queue_child_execute, find_node-queue_child_execute}
use flon.Inst.Seq.{seq_rcv, next_child, collected}
use flon.Inst.Seq.Order.{nid_child-ne, next_child_next, collected-KeepsTree}
use flon.Inst.Branch.{rcv_and, is_inst}

-- Goes on with `rest` unless the node is over: then its message.
pub until_over : Reply → (Exec → Option Msg) → Option Msg
until_over r rest = elim r.outcome [ Outcome.over ↦ some r.msg | _ ↦ rest r.state ]

until_over_ok :
    (s : Exec) (m : Msg) (rest : Exec → Option Msg) → until_over (reply ok s m) rest ≡ rest s
unfolding until_over
until_over_ok s m rest = refl

-- What the node `nid` says to one message after the other, until it is over: its last message.
pub answers : Grammar → Text → List Msg → Exec → Option Msg
answers g nid [] s = none
answers g nid (m ∷ ms) s = elim (find_node s nid) [
  | none ↦ none
  | some node ↦ until_over (rcv_and g s node m) (answers g nid ms)
]

-- The truth of what a child answers.
abbrev pub truth : Msg → Bool
truth m = ret_to_boolean (ret m)

-- The disjunction, or the conjunction, of the answers.
abbrev pub verdict : Bool → List Msg → Bool
verdict disjunct [] = not disjunct
verdict disjunct (m ∷ []) = truth m
verdict disjunct (m ∷ (m' ∷ ms)) =
    if disjunct
    then truth m || verdict disjunct (m' ∷ ms)
    else truth m && verdict disjunct (m' ∷ ms)

abbrev pub IsObject : Option Value → Type 0
IsObject p = (fs : Fields) × (p ≡ some (obj fs))

-- The messages come from the children of `nid` in turn, the first from the i-th, with objects for
-- payloads.
abbrev pub InTurn : Text → ℕ → List Msg → Type 0
InTurn nid i [] = Unit
InTurn nid i (m ∷ ms) =
    (m.nid ≡ some nid)
    × (m.from ≡ some (nid_child nid i))
    × IsObject m.payload
    × InTurn nid (i + 1) ms

ret-set_ret : (v : Value) (m : Msg) → IsObject m.payload → ret (set_ret v m) ≡ some v
ret-set_ret v m (fs, e) =
    ground (arith, e, get-put (codes "ret") (codes "ret") v fs, text_eq_refl (codes "ret"))

-- Whether an answer settles the matter.
abbrev settles : Bool → Msg → Bool
settles disjunct m = if disjunct then truth m else not (truth m)

rcv_and_settled :
    (g : Grammar) (s : Exec) (node : Node) (m : Msg)
    → is_msg_to_self m ≡ false
    → settles (is_inst "or" node) m ≡ true
    → rcv_and g s node m ≡ reply over s (set_ret (bool (truth m)) m)
unfolding rcv_and
rcv_and_settled g s node m e h = rw (e, h) refl

rcv_and_open :
    (g : Grammar) (s : Exec) (node : Node) (m : Msg)
    → is_msg_to_self m ≡ false
    → settles (is_inst "or" node) m ≡ false
    → rcv_and g s node m ≡ seq_rcv g s node (set_ret (bool (truth m)) m)
unfolding rcv_and
rcv_and_open g s node m e h = rw (e, h) refl

-- The state in which the next child is looked for.
abbrev gathered : Exec → Node → Msg → Exec
gathered s node m = update_node node.nid (collected m) s

seq_rcv_last :
    (g : Grammar) (s : Exec) (node : Node) (m : Msg) (next : Text)
    → next_child g node.nid m ≡ some next
    → is_some (flon_node_tree (gathered s node m) next) ≡ false
    → seq_rcv g s node m ≡ reply over (gathered s node m) m
unfolding seq_rcv
seq_rcv_last g s node m next e h = ground arith

seq_rcv_more :
    (g : Grammar) (s : Exec) (node : Node) (m : Msg) (next : Text)
    → next_child g node.nid m ≡ some next
    → is_some (flon_node_tree (gathered s node m) next) ≡ true
    → seq_rcv g s node m
      ≡ reply ok (queue_child_execute next node m none none (gathered s node m)) m
unfolding seq_rcv
seq_rcv_more g s node m next e h = ground arith

answers_step :
    (g : Grammar) (nid : Text) (m : Msg) (ms : List Msg) (s : Exec) (node : Node) (r : Reply)
    → find_node s nid ≡ some node
    → rcv_and g s node m ≡ r
    → answers g nid (m ∷ ms) s ≡ until_over r (answers g nid ms)
unfolding answers
answers_step g nid m ms s node r e h = rw (e, answers) (rw h refl)

module _ {g : Grammar} {nd : Text} (p : ParsesNids g) (c : Option Text) (h : IsNode nd)
    (k : IsCounter c) (nz : c ≢ some (codes "0")) where
  abbrev here : Text
  here = nid_of nd c

  not_to_self :
      (m : Msg) (i : ℕ)
      → m.nid ≡ some here
      → m.from ≡ some (nid_child here i)
      → is_msg_to_self m ≡ false
  unfolding is_msg_to_self
  not_to_self m i a b = ground (
    arith,
    nid_child-ne c i h,
    text_eq_iff here (nid_child here i),
    text_eq_iff (nid_child here i) here,
  )

  next_of :
      (m : Msg) (i : ℕ) (node : Node)
      → node.nid ≡ here
      → m.from ≡ some (nid_child here i)
      → i + 1 < u32
      → next_child g node.nid (set_ret (bool (truth m)) m) ≡ some (nid_child here (i + 1))
  next_of m i node en b lt = rw en (next_child_next p c i (set_ret (bool (truth m)) m) h k nz lt b)

  tree_after :
      (s : Exec) (node : Node) (m : Msg) (j : Text)
      → flon_node_tree (gathered s node m) j ≡ flon_node_tree s j
  tree_after s node m j = flon_node_tree-update_node s node.nid j (collected-KeepsTree m)

  -- An `and` or `or` whose children, `last` + 1 in number, answer in turn from the i-th on ends
  -- with the conjunction or disjunction of the answers in the payload's ret, whether it heard all
  -- of them or stopped at the first that settles it.
  pub answers-verdict :
      (m : Msg) (ms : List Msg) (i last : ℕ) (s : Exec) (node : Node)
      → find_node s here ≡ some node
      → node.nid ≡ here
      → i + length ms ≡ last
      → last + 1 < u32
      → ((j : ℕ) → j ≤ last + 1 → is_some (flon_node_tree s (nid_child here j)) ≡ ltb j (last + 1))
      → InTurn here i (m ∷ ms)
      → (m' : Msg) × (answers g here (m ∷ ms) s ≡ some m')
        × (ret m' ≡ some (bool (verdict (is_inst "or" node) (m ∷ ms))))
  answers-verdict m [] i last s node e en el lt trees (a, b, o, rest) = (
    m1,
    elim (Bool-cases (settles (is_inst "or" node) m)) [
      | inl done ↦
          answers_step g here m [] s node _ e (rcv_and_settled g s node m self done)
          ∙ (unfold until_over in refl)
      | inr more ↦
          answers_step g here m [] s node _ e (
            rcv_and_open g s node m self more
            ∙ seq_rcv_last g s node m1 (nid_child here (i + 1))
                (next_of m i node en b (omega arith))
                (rw (tree_after s node m1 (nid_child here (i + 1)))
                  (trees (i + 1) (omega arith) ∙ ground arith)))
          ∙ (unfold until_over in refl)
    ],
    ret-set_ret (bool (truth m)) m o,
  )
    where
      self : is_msg_to_self m ≡ false
      self = not_to_self m i a b

      m1 : Msg
      m1 = set_ret (bool (truth m)) m
  answers-verdict m (x ∷ xs) i last s node e en el lt trees (a, b, o, rest) =
      elim (Bool-cases (settles (is_inst "or" node) m)) [
        | inl done ↦ (
          m1,
          answers_step g here m (x ∷ xs) s node _ e (rcv_and_settled g s node m self done)
              ∙ (unfold until_over in refl),
          ret-set_ret (bool (truth m)) m o ∙ settled done,
        )
        | inr more ↦
            let (m', found, said) =
              answers-verdict x xs (i + 1) last s2 node2 found2 en (omega arith) lt
                (λ j le. rw (trees_same j) (trees j le)) rest in
            (
              m',
              answers_step g here m (x ∷ xs) s node _ e (
                    rcv_and_open g s node m self more
                    ∙ seq_rcv_more g s node m1 next (next_of m i node en b (omega arith)) (
                        rw (tree_after s node m1 next)
                          (trees (i + 1) (omega arith) ∙ ground arith)))
                  ∙ until_over_ok s2 m1 (answers g here (x ∷ xs))
                  ∙ found,
              said ∙ open_ more,
            )
      ]
    where
      self : is_msg_to_self m ≡ false
      self = not_to_self m i a b

      m1 : Msg
      m1 = set_ret (bool (truth m)) m

      next : Text
      next = nid_child here (i + 1)

      s2 : Exec
      s2 = queue_child_execute next node m1 none none (gathered s node m1)

      node1 : Node
      node1 = collected m1 node

      node2 : Node
      node2 = record node1 { children = flon.Inst.push_child next node1.children }

      found2 : find_node s2 here ≡ some node2
      found2 =
          find_node-queue_child_execute next node m1 none none (gathered s node m1) here en
            (find_node-update_at s here node.nid (collected m1) en e)

      trees_same :
          (j : ℕ) → flon_node_tree s2 (nid_child here j) ≡ flon_node_tree s (nid_child here j)
      trees_same j =
          flon_node_tree-queue_child_execute next node m1 none none (gathered s node m1)
            (nid_child here j)
          ∙ tree_after s node m1 (nid_child here j)

      settled :
          settles (is_inst "or" node) m ≡ true
          → some (bool (truth m)) ≡ some (bool (verdict (is_inst "or" node) (m ∷ (x ∷ xs))))
      settled d = ground arith

      open_ :
          settles (is_inst "or" node) m ≡ false
          → some (bool (verdict (is_inst "or" node) (x ∷ xs)))
            ≡ some (bool (verdict (is_inst "or" node) (m ∷ (x ∷ xs))))
      open_ d = ground arith
