-- ===== src/Inst/Seq/Order.antt =====
-- A sequence goes from one child to the next.
use flon.Base.{
  ℕ, ◌+◌, ◌<◌, ◌≡◌, ◌≢◌, ◌⊎◌, inl, inr, refl, ap, ◌∙◌, sym, arith, false, Option, none, some, [],
  ◌∷◌, ◌++◌, if◌then◌else◌, is_some,
}
use flon.Base.Text.{Text, codes, text_eq, text_eq_iff, text_eq_refl}
use flon.Base.Lists.{length, length-append}
use flon.Base.Hex.{u32, hex}
use flon.Ids.{Grammar, nid_child, dash, underscore}
use flon.Ids.Paths.{nid_of, IsNode, IsCounter, child_node, nid_child-nid_of}
use flon.Ids.Next.{ParsesNids, nid_next-nid_child}
use flon.State.{Node, Msg, empty_msg, Exec, queue_msg, stamp}
use flon.State.Tree.{flon_node_tree}
use flon.State.Tree.Frame.{KeepsTree, flon_node_tree-update_node}
use flon.Inst.{Reply, over, ok, queue_child_execute}
use flon.Inst.Seq.{next_child, seq_rcv, collected}

pub nid_child-longer :
    (nd : Text) (c : Option Text) (i : ℕ)
    → length (nid_of nd c) < length (nid_of (child_node nd i) c)
nid_child-longer nd none i = omega (arith, length-append {0} nd (underscore ∷ hex i))
nid_child-longer nd (some c) i = omega (
  arith,
  length-append {0} nd (underscore ∷ hex i),
  length-append {0} nd (dash ∷ c),
  length-append {0} (nd ++ underscore ∷ hex i) (dash ∷ c),
)

-- A child has another id than its parent.
pub nid_child-ne :
    {nd : Text} (c : Option Text) (i : ℕ)
    → IsNode nd
    → text_eq (nid_child (nid_of nd c) i) (nid_of nd c) ≡ false
nid_child-ne {nd} c i h =
    let longer = nid_child-longer nd c i in
    let e = nid_child-nid_of c i h in
    let apart : nid_child (nid_of nd c) i ≢ nid_of nd c =
      λ q. omega (arith, longer, ap length (sym e ∙ q)) in
    ground (arith, text_eq_iff (nid_child (nid_of nd c) i) (nid_of nd c), apart)

-- The child that a sequence turns to: the first one at its launch, or when it gets a message from
-- itself, and behind the i-th child the one with the next index.
pub next_child_first :
    (g : Grammar) (nid : Text) (m : Msg)
    → (m.from ≡ none) ⊎ (m.from ≡ some nid)
    → next_child g nid m ≡ some (nid_child nid 0)
unfolding next_child
next_child_first g nid m (inl e) = ground arith
next_child_first g nid m (inr e) = ground (arith, text_eq_refl nid)

pub next_child_next :
    {g : Grammar} {nd : Text} (p : ParsesNids g) (c : Option Text) (i : ℕ) (m : Msg)
    → IsNode nd
    → IsCounter c
    → c ≢ some (codes "0")
    → i + 1 < u32
    → m.from ≡ some (nid_child (nid_of nd c) i)
    → next_child g (nid_of nd c) m ≡ some (nid_child (nid_of nd c) (i + 1))
unfolding next_child
next_child_next {g} {nd} p c i m h k nz lt e =
    ground (arith, e, nid_child-ne c i h, nid_next-nid_child p c i 1 h k nz lt)

-- The order to execute that goes out for a child, with the payload of the message at hand.
abbrev pub execute_order : Text → Node → Msg → Exec → Msg
execute_order next node m s =
    stamp (codes "execute") next (some node.nid) (s.msg_counter + 1)
      (record empty_msg { payload = m.payload })

-- The node goes on with the child `next`, if that has a tree, by one order; it is over otherwise
-- and orders nothing.
pub record GoesOn (s : Exec) (node : Node) (m : Msg) (next : Text) (r : Reply) : Type 0 where
  pub goes_on : r.outcome ≡ (if is_some (flon_node_tree s next) then ok else over)
  pub orders : r.state.msgs ≡ (
      if is_some (flon_node_tree s next)
      then s.msgs ++ execute_order next node m s ∷ []
      else s.msgs)

pub collected-KeepsTree : (m : Msg) → KeepsTree (collected m)
collected-KeepsTree m = record { same_tree = λ v. refl; same_parent = λ v. refl }

pub seq_rcv-GoesOn :
    (g : Grammar) (s : Exec) (node : Node) (m : Msg) (next : Text)
    → next_child g node.nid m ≡ some next
    → GoesOn s node m next (seq_rcv g s node m)
unfolding seq_rcv queue_child_execute queue_msg
seq_rcv-GoesOn g s node m next e =
    let same = flon_node_tree-update_node s node.nid next (collected-KeepsTree m) in
    ground (arith, e, same)

-- A sequence that hears from its i-th child orders the execution of the child i + 1, with the
-- payload it got, if the tree of the node has that child, and is over with no order if it has not;
-- the ids are within 32 bits and the counter is not "0".
pub seq_rcv_next :
    {g : Grammar} {nd : Text} (p : ParsesNids g) (c : Option Text) (i : ℕ) (s : Exec) (node : Node)
    (m : Msg)
    → IsNode nd
    → IsCounter c
    → c ≢ some (codes "0")
    → i + 1 < u32
    → node.nid ≡ nid_of nd c
    → m.from ≡ some (nid_child (nid_of nd c) i)
    → GoesOn s node m (nid_child (nid_of nd c) (i + 1)) (seq_rcv g s node m)
seq_rcv_next {g} {nd} p c i s node m h k nz lt en e =
    seq_rcv-GoesOn g s node m (nid_child (nid_of nd c) (i + 1))
      (rw en (next_child_next p c i m h k nz lt e))
