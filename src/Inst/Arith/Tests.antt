-- ===== src/Inst/Arith/Tests.antt =====
-- Instances of the theorems on arithmetic.
use flon.Base.{
  ◌≡◌, ◌↔◌, ◌<◌, ◌+◌, ◌%◌, ◌/◌, ◌^◌, refl, arith, Bool, true, false, Option, none, some, List, [],
  ◌∷◌, ℕ,
}
use flon.Base.Text.{Text, codes}
use flon.Base.Decimal.{decimal_digits}
use flon.Ids.Tests.{cut_at_dash}
use flon.Json.{Value, num}
use flon.State.{Node, find_node, set_ret}
use flon.Inst.{reply, over}
use flon.Inst.Seq.{seq_rcv}
use flon.Inst.Tests.{root_node, state_with, from_child}
use flon.Inst.Compare.{rets_of}
use flon.Inst.Compare.Tests.{plain, with_rets, third_child-over}
use flon.Inst.Arith.{has_double, word, print_int, arith_fold_i, texts, rcv_arith}
use flon.Inst.Arith.Folds.{total, arith_fold_i-difference, rcv_arith-total}

abbrev read_word : Text → ℕ
read_word t = word (decimal_digits t 0)

abbrev halves : ℕ → ℕ → ℕ
halves a b = a / b

read_word-small : (t : Text) → read_word t < 2 ^ 64
read_word-small t = omega arith

abbrev numbers : List Text
numbers = codes "2" ∷ codes "3" ∷ []

arith_fold_i-difference_example :
    (w : ℕ) × (arith_fold_i read_word halves (codes "-") (codes "7" ∷ numbers) ≡ some w)
    × (w < 2 ^ 64)
    × (word (w + total read_word halves numbers) ≡ read_word (codes "7"))
arith_fold_i-difference_example =
    arith_fold_i-difference read_word halves (codes "7") numbers read_word-small

abbrev no_double : Text → List Text → Text
no_double op l = []

abbrev plus : Node
plus = with_rets (root_node "+")

no_dots :
    has_double (
      texts read_word halves plain no_double (
        rets_of (
          find_node
            (seq_rcv cut_at_dash (state_with plus) plus (from_child 2 (num (codes "3")))).state
            (codes "0"))))
    ≡ false
unfolding has_double seq_rcv flon.Inst.Seq.next_child flon.Base.Text.text_eq flon.Ids.nid_child
    flon.Base.Text.before flon.Ids.nid_next flon.Ids.parse_nid cut_at_dash flon.Base.Text.split_last
    flon.Base.Hex.hex flon.State.Tree.flon_node_tree flon.State.Tree.node_tree
    flon.State.Tree.tree_fuel find_node flon.State.find_in flon.State.update_in flon.State.Tree.item
    flon.Base.Hex.digit_value flon.Base.Hex.hex_acc flon.Base.Hex.hex_digit flon.Base.Hex.hex_fuel
    flon.Base.Hex.is_hex_digit flon.Base.Hex.strtoll16 flon.Base.Text.after flon.Base.Text.has_byte
    flon.Ids.base_name flon.Ids.nid_index flon.Ids.nid_parent flon.Inst.queue_child_execute
    flon.Json.at flon.Json.get flon.State.Tree.parent_lengths flon.State.queue_msg flon.State.stamp
no_dots = refl

rcv_arith-total_example :
    let r = seq_rcv cut_at_dash (state_with plus) plus (from_child 2 (num (codes "3"))) in
    rcv_arith read_word halves plain no_double cut_at_dash
      (state_with plus)
      plus
      (from_child 2 (num (codes "3")))
    ≡ reply over r.state (
        set_ret
          (num (
            print_int (
              total read_word halves
                (texts read_word halves plain no_double (rets_of (find_node r.state (codes "0"))))
              % 2 ^ 32)))
          r.msg)
rcv_arith-total_example =
    rcv_arith-total read_word halves plain no_double cut_at_dash (state_with plus) plus
      (from_child 2 (num (codes "3"))) read_word-small refl (third_child-over "+") no_dots
