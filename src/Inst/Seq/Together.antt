-- ===== src/Inst/Seq/Together.antt =====
-- A concurrence starts all its children, and is over when all have answered.
use flon.Base.{
  ℕ, zero, suc, ◌+◌, ◌<◌, ◌≤◌, ◌/◌, ◌%◌, ◌*◌, is_some, ◌≡◌, ◌↔◌, refl, ap, ◌∙◌, sym, arith, true,
  false, Option, none, some, List, [], ◌∷◌, ◌++◌, if◌then◌else◌,
}
use mathlib.Core.List.{append_assoc, append-nil, Perm, erase, map, cons-perm_iff_perm-erase}
use mathlib.Core.List.Perm
use mathlib.Core.Logic.{if_pos, if_neg}
use native.Mathlib.Decide.{ℕ_discrete}
use flon.Base.Text.{Text, codes, text_eq, text_eq_iff, has_byte, before_iff_none, split_last-append}
use flon.Base.Lists.{All}
use flon.Json.{Value}
use flon.Base.Hex.{strtoll16}
use flon.Base.Decimal.{decimal, decimal-hex}
use flon.Ids.{nid_child, nid_index, underscore, dash, text_or}
use flon.Ids.Paths.{IsNode, nid_child-nid_of}
use flon.State.{Node, Msg, empty_msg, Exec, queue_msg, stamp, update_node, find_node}
use flon.State.Store.{find_node-update_at}
use flon.Inst.{Reply, reply, Outcome, over, ok, queue_child_execute}
use flon.Inst.Seq.{con_rcv, con_loop, con_child, con_exe, child_count, unpush, is_empty}

-- The messages that a loop of `n` rounds from the index `i` queues.
abbrev pub con_orders : Node → Msg → ℕ → ℕ → ℕ → List Msg
con_orders node m i counter zero = []
con_orders node m i counter (suc n) =
    stamp (codes "execute") (con_child node.nid i) (some node.nid) (counter + 1)
      (record empty_msg { payload = m.payload })
    ∷ con_orders node m (i + 1) (counter + 1) n

con_loop-msgs :
    (node : Node) (m : Msg) (i n : ℕ) (s : Exec)
    → (con_loop node m i n s).msgs ≡ s.msgs ++ con_orders node m i s.msg_counter n
unfolding con_loop queue_child_execute queue_msg
con_loop-msgs node m i zero s = sym (append-nil s.msgs)
con_loop-msgs node m i (suc n) s =
    con_loop-msgs node m (i + 1) n (queue_child_execute (con_child node.nid i) node m none none s)
    ∙ append_assoc s.msgs _ _

-- The first ten children of a node with no counter get the ids that the rest of the program gives
-- to children.
pub con_child-nid_child : {nd : Text} (i : ℕ) → IsNode nd → i < 10 → con_child nd i ≡ nid_child nd i
con_child-nid_child {nd} i h lt = rw (decimal-hex i lt) (sym (nid_child-nid_of none i h))

-- The orders to execute the `n` children of a node from the index `i` on, by the ids of children.
abbrev pub child_orders : Text → Option Value → ℕ → ℕ → ℕ → List Msg
child_orders nid payload i counter zero = []
child_orders nid payload i counter (suc n) =
    stamp (codes "execute") (nid_child nid i) (some nid) (counter + 1)
      (record empty_msg { payload = payload })
    ∷ child_orders nid payload (i + 1) (counter + 1) n

con_orders-children :
    (node : Node) (m : Msg) (i counter n : ℕ)
    → IsNode node.nid
    → i + n ≤ 10
    → con_orders node m i counter n ≡ child_orders node.nid m.payload i counter n
con_orders-children node m i counter zero h le = refl
con_orders-children node m i counter (suc n) h le =
    ap
      (λ (c : Text).
        stamp (codes "execute") c (some node.nid) (counter + 1)
          (record empty_msg { payload = m.payload })
        ∷ con_orders node m (i + 1) (counter + 1) n)
      (con_child-nid_child i h (omega arith))
    ∙ ap
        (λ (l : List Msg).
          stamp (codes "execute") (nid_child node.nid i) (some node.nid) (counter + 1)
            (record empty_msg { payload = m.payload })
          ∷ l)
        (con_orders-children node m (i + 1) (counter + 1) n h (omega arith))

-- A concurrence with ten children at most, whose id has no counter, orders the execution of each of
-- them, by the id that flon_nid_child gives it, in order and at once, with the payload it got; it is
-- over at its launch exactly when it has none.
pub con_exe-orders :
    (s : Exec) (node : Node) (m : Msg)
    → IsNode node.nid
    → child_count s node m ≤ 10
    → ((con_exe s node m).state.msgs
        ≡ s.msgs ++ child_orders node.nid m.payload 0 s.msg_counter (child_count s node m))
      × (((con_exe s node m).outcome ≡ over) ↔ (child_count s node m ≡ 0))
unfolding con_exe
con_exe-orders s node m h le = (
  ground (
    arith,
    con_loop-msgs node m 0 (child_count s node m) s,
    con_orders-children node m 0 s.msg_counter (child_count s node m) h (omega (arith, le)),
    append-nil s.msgs,
  ),
  (ground arith, ground arith),
)

two_digits : (i : ℕ) → 10 ≤ i → i < 100 → decimal i ≡ (i / 10 + 48) ∷ (i % 10 + 48) ∷ []
unfolding decimal
two_digits i a b = ground arith

digits_no_byte :
    (c a b : ℕ) → a < 10 → b < 10 → c < 48 → has_byte c ((a + 48) ∷ (b + 48) ∷ []) ≡ false
unfolding has_byte
digits_no_byte c a b p q r = ground arith

digits_no_underscore :
    (a b : ℕ) → a < 10 → b < 10 → has_byte underscore ((a + 48) ∷ (b + 48) ∷ []) ≡ false
unfolding has_byte
digits_no_underscore a b p q = ground arith

strtoll16_digits : (a b : ℕ) → a < 10 → b < 10 → strtoll16 ((a + 48) ∷ (b + 48) ∷ []) ≡ a * 16 + b
unfolding strtoll16
strtoll16_digits a b p q = ground arith

-- The eleventh child and those behind it get an id in decimal digits, which is read in
-- hexadecimal: their index is another one.
pub nid_index-con_child :
    (nd : Text) (i : ℕ) → 10 ≤ i → i < 100 → nid_index (con_child nd i) ≡ i / 10 * 16 + i % 10
unfolding nid_index
nid_index-con_child nd i a b = rw (two_digits i a b) (
    ground (
      arith,
      split_last-append underscore nd ((i / 10 + 48) ∷ (i % 10 + 48) ∷ [])
          (digits_no_underscore (i / 10) (i % 10) (omega arith) (omega arith)),
      (before_iff_none dash ((i / 10 + 48) ∷ (i % 10 + 48) ∷ [])).1
          (digits_no_byte dash (i / 10) (i % 10) (omega arith) (omega arith) (omega arith)),
      strtoll16_digits (i / 10) (i % 10) (omega arith) (omega arith),
    ))

Text-discrete : Discrete Text
Text-discrete = hlevel ℕ_discrete

unpush-erase : (f : Text) (l : List Text) → unpush f l ≡ erase Text-discrete l f
unfolding unpush
unpush-erase f [] = refl
unpush-erase f (x ∷ l) = elim (Text-discrete x f) [
  | yes p ↦ rw (if_pos (Text-discrete x f) p, (text_eq_iff x f).1 p) refl
  | no n ↦
      rw (if_neg (Text-discrete x f) n, apart n) (ap (λ (r : List Text). x ∷ r) (unpush-erase f l))
]
  where
    apart : ¬ (x ≡ f) → text_eq x f ≡ false
    apart n = ground (arith, text_eq_iff x f)

unpush-perm : (f : Text) (fs cs : List Text) → Perm (f ∷ fs) cs → Perm fs (unpush f cs)
unpush-perm f fs cs p = rw (unpush-erase f cs) ((cons-perm_iff_perm-erase Text-discrete).0 p).1

-- Who a message comes from.
abbrev pub sender : Msg → Text
sender m = text_or m.from []

-- What a concurrence says to one message after the other, its node looked up each time.
pub con_answers : Text → List Msg → Exec → List Outcome
con_answers nid [] s = []
con_answers nid (m ∷ ms) s = elim (find_node s nid) [
  | none ↦ []
  | some node ↦ (con_rcv s node m).outcome ∷ con_answers nid ms (con_rcv s node m).state
]

-- One `ok` for each message but the last.
abbrev pub ok_then_over : List Msg → List Outcome
ok_then_over [] = []
ok_then_over (m ∷ []) = over ∷ []
ok_then_over (m ∷ (m' ∷ ms)) = ok ∷ ok_then_over (m' ∷ ms)

con_rcv_left :
    (s : Exec) (node : Node) (m : Msg) (cs : List Text)
    → node.children ≡ some cs
    → is_some m.from ≡ true
    → con_rcv s node m
      ≡ reply
          (if is_empty (unpush (sender m) cs) then over else ok)
          (update_node node.nid (λ v. record v { children = some (unpush (sender m) cs) }) s)
          m
unfolding con_rcv
con_rcv_left s node m cs e f = ground arith

nil-of_perm : (cs : List Text) → Perm [] cs → is_empty cs ≡ true
nil-of_perm cs p = rw (← Perm.nil-eq p) refl

cons-of_perm : (f : Text) (fs cs : List Text) → Perm (f ∷ fs) cs → is_empty cs ≡ false
cons-of_perm f fs [] p = cc (Perm.eq-nil p)
cons-of_perm f fs (c ∷ cs) p = refl

con_answers_step :
    (nid : Text) (m : Msg) (ms : List Msg) (s : Exec) (node : Node) (r : Reply)
    → find_node s nid ≡ some node
    → con_rcv s node m ≡ r
    → con_answers nid (m ∷ ms) s ≡ r.outcome ∷ con_answers nid ms r.state
unfolding con_answers
con_answers_step nid m ms s node r e er = rw (e, con_answers) (rw er)

-- In whatever order the children of a concurrence answer, it goes on until the last answer, and is
-- over with that.
pub con_answers-perm :
    (nid : Text) (ms : List Msg) (s : Exec) (node : Node) (cs : List Text)
    → find_node s nid ≡ some node
    → node.nid ≡ nid
    → node.children ≡ some cs
    → All (λ (m : Msg). is_some m.from ≡ true) ms
    → Perm (map sender ms) cs
    → con_answers nid ms s ≡ ok_then_over ms
con_answers-perm nid [] s node cs e en ec a p = unfold con_answers in refl
con_answers-perm nid (m ∷ []) s node cs e en ec a p =
    con_answers_step nid m [] s node _ e (con_rcv_left s node m cs ec a.0)
    ∙ rw (nil-of_perm (unpush (sender m) cs) (unpush-perm (sender m) [] cs p))
        (unfold con_answers in refl)
con_answers-perm nid (m ∷ (m' ∷ ms)) s node cs e en ec a p =
    let rest = unpush-perm (sender m) (sender m' ∷ map sender ms) cs p in
    con_answers_step nid m (m' ∷ ms) s node _ e (con_rcv_left s node m cs ec a.0)
    ∙ rw (cons-of_perm (sender m') (map sender ms) (unpush (sender m) cs) rest) (
        ap (λ (l : List Outcome). ok ∷ l)
          (con_answers-perm nid (m' ∷ ms) _ (record node { children = some (unpush (sender m) cs) })
            (unpush (sender m) cs) (find_node-update_at s nid node.nid _ en e) en refl a.1 rest))
