-- ===== src/Json/Tests.antt =====
-- An instance of the theorem about trees.
use flon.Base.{◌≡◌, ◌↔◌, true}
use flon.Base.Text.{codes}
use flon.Json.{Value, arr, obj, num, sym, nil, cons, end, is_tree}
use flon.Json.Trees.{IsTree, is_tree_iff}

abbrev stall_tree : Value
stall_tree =
    arr (cons (sym (codes "stall")) (cons (obj end) (cons (num (codes "2")) (cons (arr nil) nil))))

is_tree_iff_example : (is_tree stall_tree ≡ true) ↔ IsTree stall_tree
is_tree_iff_example = is_tree_iff stall_tree
