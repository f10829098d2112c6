-- ===== src/Ids/Tests.antt =====
-- Runs of src/fl_ids.c on inputs of its specs, a grammar to run them with, and instances of the
-- theorems.
use flon.Base.{
  suc, inl, inr, ◌≡◌, ◌↔◌, ◌++◌, ◌≢◌, refl, arith, true, false, Option, none, some, [],
  if◌then◌else◌,
}
use flon.Base.Text.{
  Text, codes, text_eq, split_last, has_byte, before, after, before_iff_none, before-append,
  after-append,
}
use flon.Base.Hex.{is_hex_digit, strtoll16, hex}
use flon.Ids.{
  dash, Grammar, parse_nid, nid_next, nid_parent, nid_child, nid_index, nid_depth, is_plain_receive,
}
use flon.Ids.Paths.{
  nid_of, IsNode, IsCounter, IsNode-no_dash, IsNode-child_node, nid_parent-nid_child,
  nid_index-nid_child,
}
use flon.Ids.Next.{ParsesNids, nid_next-nid_child, nid_depth-nid_child, is_plain_receive_iff}

-- A tree that holds a node part and a counter.
abbrev pub two_parts : Text → Option Text → Text → Option Text
two_parts node c name =
    if text_eq name (codes "node")
    then some node
    else if text_eq name (codes "counter")
    then c
    else none

-- Takes every text for a node id, and cuts it at its first dash.
unfoldable pub cut_at_dash : Grammar
cut_at_dash s = elim (before dash s) [
  | none ↦ some (two_parts s none)
  | some node ↦ some (two_parts node (after dash s))
]

cut_at_dash-nid_of :
    (node : Text) (c : Option Text)
    → IsNode node
    → cut_at_dash (nid_of node c) ≡ some (two_parts node c)
unfolding cut_at_dash
cut_at_dash-nid_of node none h = ground (arith, (before_iff_none dash node).1 (IsNode-no_dash h))
cut_at_dash-nid_of node (some c) h = ground (
  arith,
  before-append dash node c (IsNode-no_dash h),
  after-append dash node c (IsNode-no_dash h),
)

pub cut_at_dash-ParsesNids : ParsesNids cut_at_dash
unfolding text_eq
cut_at_dash-ParsesNids = record {
  parsed = λ node c h k. (two_parts node c, cut_at_dash-nid_of node c h, refl, refl);
}

pub root_IsNode : IsNode (codes "0")
root_IsNode = IsNode.root (inl refl)

abbrev seven : Option Text
seven = some (codes "7")

seven-IsCounter : IsCounter seven
seven-IsCounter = inr (record {
  first = b'7';
  rest = [];
  splits = refl;
  first_hex = unfold is_hex_digit in refl;
  first_ne_zero = omega arith;
  rest_hex = tt;
})

seven_ne_zero : seven ≢ some (codes "0")
seven_ne_zero e = cc

index_of_1a : nid_index (codes "0_1a-7") ≡ 26
unfolding nid_index before split_last strtoll16
index_of_1a = refl

next_of_counted : nid_next cut_at_dash (codes "1_2_3-2") 1 ≡ some (codes "1_2_4-2")
unfolding nid_next parse_nid cut_at_dash before after split_last strtoll16 hex text_eq has_byte
next_of_counted = refl

-- -1 as a 32-bit number
previous_of_counted : nid_next cut_at_dash (codes "1_2_3-2") 0xffff_ffff ≡ some (codes "1_2_2-2")
unfolding nid_next parse_nid cut_at_dash before after split_last strtoll16 hex text_eq has_byte
previous_of_counted = refl

nid_parent-nid_child_example : nid_parent (nid_child (codes "0-7") 26) false ≡ some (codes "0-7")
nid_parent-nid_child_example = nid_parent-nid_child seven 26 false root_IsNode seven-IsCounter

nid_index-nid_child_example : nid_index (nid_child (codes "0-7") 26) ≡ 26
nid_index-nid_child_example = nid_index-nid_child seven 26 root_IsNode seven-IsCounter (omega arith)

nid_next-nid_child_example :
    nid_next cut_at_dash (nid_child (codes "0-7") 15) 1 ≡ some (nid_child (codes "0-7") 16)
nid_next-nid_child_example =
    nid_next-nid_child cut_at_dash-ParsesNids seven 15 1 root_IsNode seven-IsCounter seven_ne_zero
      (omega arith)

zero_one_IsNode : IsNode (codes "0_1")
unfolding hex
zero_one_IsNode = IsNode-child_node 1 root_IsNode

is_plain_receive_iff_example :
    (is_plain_receive cut_at_dash (some (codes "0_1-7")) (some (codes "0-7")) ≡ true)
    ↔ ((seven ≡ seven) × ((rest : Text) × (codes "0_1" ≡ codes "0" ++ rest)))
is_plain_receive_iff_example =
    is_plain_receive_iff cut_at_dash-ParsesNids (codes "0_1") (codes "0") seven seven
      zero_one_IsNode root_IsNode seven-IsCounter seven-IsCounter

nid_depth-nid_child_example :
    nid_depth cut_at_dash (nid_child (codes "0-7") 3) ≡ suc (nid_depth cut_at_dash (codes "0-7"))
nid_depth-nid_child_example =
    nid_depth-nid_child cut_at_dash-ParsesNids seven 3 root_IsNode seven-IsCounter
