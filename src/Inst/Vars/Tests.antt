-- ===== src/Inst/Vars/Tests.antt =====
-- Variables set and looked up.
use flon.Base.{if◌then◌else◌, ◌≡◌, ◌≢◌, refl, Option, some, none, [], ◌∷◌, List, true}
use flon.Base.Text.{Text, codes, text_eq, text_eq_refl}
use flon.Json.{Value, Fields, bool, null, num, end, get, put, get-put, take_out, field}
use flon.State.{Node, Exec, empty_msg, new_node, find_in, find_node}
use flon.State.Tree.{flon_parent_nid}
use flon.Inst.Vars.{
  local, Paths, parent, lookup_var_node, lookup_var, lookup_domain_var, set_var, dotted, merge_all,
  extract_prefix,
}
use flon.Inst.Vars.Found.{Stores, lookup_var-set_var}

-- Paths without dots, and a file for two domains.
abbrev store_plain : Text → Option Value → Fields → Fields
store_plain key none fs = take_out key fs
store_plain key (some v) fs = put key v fs

abbrev files : Text → Option Fields
files d =
    if text_eq d (codes "any")
    then some (field (codes "a") (num (codes "1")) end)
    else if text_eq d (codes "org.b")
    then some (field (codes "a") (num (codes "2")) end)
    else none

abbrev plain_paths : Paths
plain_paths = record { look = get; store = store_plain; file = files }

plain_paths-Stores : Stores plain_paths
plain_paths-Stores = record {
  stored = λ key val fs h. rw (get-put key key val fs, text_eq_refl key) refl;
}

abbrev root_node : Node
root_node = record (new_node empty_msg (codes "0") none null) { vars = some end }

abbrev child_node : Node
child_node = record (new_node empty_msg (codes "0_0") (some (codes "0")) null) { vars = none }

abbrev two_nodes : Exec
two_nodes = record flon.Executor.blank {
  nodes = (codes "0", root_node) ∷ (codes "0_0", child_node) ∷ [];
}

-- The most special domain of the execution wins.
domain_wins :
    lookup_domain_var plain_paths (some (codes "org.b.c-u0-1")) (codes "a") ≡ some (num (codes "2"))
unfolding lookup_domain_var merge_all dotted text_eq get put flon.Inst.Table.merge
    flon.Base.Text.before
domain_wins = refl

prefix_of_local : extract_prefix (codes "lv.x") ≡ some b'v'
unfolding extract_prefix flon.Base.Text.has_prefix
prefix_of_local = refl

lookup_var-set_var_example :
    lookup_var plain_paths 3 none local
      (set_var plain_paths 3 local (codes "x") (some (bool true)) two_nodes (codes "0_0"))
      (codes "0_0")
      (codes "x")
    ≡ some (bool true)
unfolding lookup_var_node parent flon_parent_nid find_node find_in text_eq new_node
lookup_var-set_var_example =
    lookup_var-set_var plain_paths plain_paths-Stores 2 none local (codes "x") (bool true) two_nodes
      (codes "0_0") (codes "0") refl (λ e. cc) refl
