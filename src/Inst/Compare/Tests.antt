-- ===== src/Inst/Compare/Tests.antt =====
-- Instances of the theorems on comparisons.
use flon.Base.{
  String, ◌≡◌, ◌↔◌, refl, Bool, true, false, not, ◌||◌, Option, none, some, List, [], ◌∷◌, ◌==◌, ℕ,
}
use flon.Base.Text.{Text, codes}
use flon.Base.Decimal.{decimal_digits}
use flon.Ids.{text_or}
use flon.Ids.Tests.{cut_at_dash}
use flon.Json.{Value, str, num, bool}
use flon.State.{Node, Exec, find_node, set_ret}
use flon.Inst.{reply, over}
use flon.Inst.Seq.{seq_rcv}
use flon.Inst.Tests.{root_node, state_with, from_child}
use flon.Inst.Compare.{Match, cmp_values, rets_of, rcv_cmp}
use flon.Inst.Compare.Chains.{adjacent, rcv_cmp-adjacent}
use flon.Inst.Compare.Rising.{IsRising, adjacent_iff_IsRising}

abbrev pub plain : Value → Text
plain (str t) = t
plain (num t) = t
plain _ = []

abbrev digits : Text → ℕ
digits t = decimal_digits t 0

abbrev no_match : Match
no_match s node op l r = (s, false)

abbrev words : List Value
words = str (codes "a") ∷ str (codes "b") ∷ str (codes "c") ∷ []

adjacent_iff_IsRising_example :
    (adjacent (cmp_values plain digits no_match (codes "<")) words ≡ true)
    ↔ IsRising plain digits no_match words
unfolding flon.Json.is_number
adjacent_iff_IsRising_example =
    adjacent_iff_IsRising plain digits no_match words (refl, (refl, (refl, tt)))

abbrev pub with_rets : Node → Node
with_rets v = record v { rets = some (num (codes "1") ∷ num (codes "2") ∷ []) }

abbrev less : Node
less = with_rets (root_node "<")

-- The third child of three is the last.
pub third_child-over :
    (name : String)
    → (let node = with_rets (root_node name) in
        (seq_rcv cut_at_dash (state_with node) node (from_child 2 (num (codes "3")))).outcome
        ≡ over)
unfolding seq_rcv flon.Inst.Seq.next_child flon.Base.Text.text_eq flon.Ids.nid_child
    flon.Base.Text.before flon.Ids.nid_next flon.Ids.parse_nid cut_at_dash flon.Base.Text.split_last
    flon.Base.Hex.hex flon.State.Tree.flon_node_tree flon.State.Tree.node_tree
    flon.State.Tree.tree_fuel find_node flon.State.find_in flon.State.update_in flon.State.Tree.item
    flon.Base.Hex.digit_value flon.Base.Hex.hex_acc flon.Base.Hex.hex_digit flon.Base.Hex.hex_fuel
    flon.Base.Hex.is_hex_digit flon.Base.Hex.strtoll16 flon.Base.Text.after flon.Base.Text.has_byte
    flon.Ids.base_name flon.Ids.nid_index flon.Ids.nid_parent flon.Inst.queue_child_execute
    flon.Json.at flon.Json.get flon.State.Tree.parent_lengths flon.State.queue_msg flon.State.stamp
third_child-over name = refl

rcv_cmp-adjacent_example :
    let r = seq_rcv cut_at_dash (state_with less) less (from_child 2 (num (codes "3"))) in
    rcv_cmp plain digits no_match cut_at_dash
      (state_with less)
      less
      (from_child 2 (num (codes "3")))
    ≡ reply over r.state (
        set_ret
          (bool (
            adjacent
              (cmp_values plain digits no_match (codes "<"))
              (rets_of (find_node r.state (codes "0")))))
          r.msg)
rcv_cmp-adjacent_example =
    rcv_cmp-adjacent plain digits no_match cut_at_dash (state_with less) less
      (from_child 2 (num (codes "3"))) refl (third_child-over "<")
