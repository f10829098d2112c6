-- ===== src/Inst/Vars.antt =====
-- The variables of src/fl_exe_instructions.c, and src/n/fl_n_set.c. What the library djan makes of a
-- path with dots in it is a parameter, and so are the files of variables in usr/local/etc/vars/.
pub mod Found
mod Tests
use flon.Base.{
  ℕ, zero, suc, ◌+◌, Bool, true, false, ◌&&◌, ◌||◌, Option, none, some, List, [], ◌∷◌, ◌++◌, ◌==◌,
  ltb, if◌then◌else◌, is_some, String,
}
use flon.Base.Text.{Text, codes, text_eq, has_prefix, before, after, split_last}
use flon.Ids.{nid_child, text_or, dash}
use flon.Json.{Value, Fields, obj, end, get, put, take_out, field}
use flon.State.{Node, Msg, Exec, find_node, update_node, ret}
use flon.State.Tree.{flon_parent_nid}
use flon.Inst.{Reply, reply, over, ok, queue_child_execute}
use flon.Inst.Seq.{child_count}
use flon.Inst.Table.{merge}
use flon.Inst.Branch.{attribute, attributes}

-- The modes 'l', 'g' and 'd'.
pub data Mode : Type 0 where
  local global domain : Mode

-- fdja_l(v, path) and fdja_pset(v, path, val) on an object, where a null value takes the entry away,
-- and fdja_parse_obj_f on the variables of a domain
pub record Paths : Type 0 where
  pub look : Text → Fields → Option Value
  pub store : Text → Option Value → Fields → Fields
  pub file : Text → Option Fields

-- parent(node): the node's parent, if it is there
unfoldable pub parent : Exec → Text → Option Text
parent s nid = elim (flon_parent_nid s nid) [
  | none ↦ none
  | some p ↦ if is_some (find_node s p) then some p else none
]

abbrev pub vars_in : Option Node → Option Fields
vars_in none = none
vars_in (some v) = v.vars

abbrev pub is_local : Mode → Bool
is_local local = true
is_local _ = false

abbrev pub is_global : Mode → Bool
is_global global = true
is_global _ = false

-- lookup_var_node(mode, node): the id of the node whose variables are meant
unfoldable pub lookup_var_node : ℕ → Mode → Exec → Text → Option Text
lookup_var_node zero mode s nid = none
lookup_var_node (suc fuel) mode s nid =
    let has = is_some (vars_in (find_node s nid)) in
    let above : Option Text = elim (parent s nid) [
      | none ↦ if has && is_global mode then some nid else none
      | some p ↦ lookup_var_node fuel mode s p
    ] in
    if is_local mode && has then some nid else above

-- The domains of the loop of lookup_domain_var: what stands before each dot, and the whole, of the
-- text before the first dash. A dot at the very start is skipped.
unfoldable pub dotted : Text → Text → List Text
dotted front [] = front ∷ []
dotted front (c ∷ t) =
    let rest = dotted (front ++ c ∷ []) t in if c == b'.' then front ∷ rest else rest

abbrev pub domains : Text → List Text
domains [] = [] ∷ []
domains (c ∷ t) = dotted (c ∷ []) t

-- extract_prefix(path): 'f', 'v' or 'w', if the path starts so
abbrev pub starts : String → Text → Bool
starts p t = has_prefix (codes p) t

abbrev pub prefix_at : Text → Option ℕ
prefix_at t =
    if starts "f." t
    then some b'f'
    else if starts "v." t
    then some b'v'
    else if starts "w." t
    then some b'w'
    else if starts "fld." t
    then some b'f'
    else if starts "var." t
    then some b'v'
    else if starts "field." t
    then some b'f'
    else if starts "variable." t
    then some b'v'
    else none

unfoldable pub extract_prefix : Text → Option ℕ
extract_prefix [] = prefix_at []
extract_prefix (c ∷ t) = prefix_at (if c == b'l' || (c == b'g' || c == b'd') then t else c ∷ t)

-- `*satt`, as set_var reads it
abbrev pub mode_of : Text → Mode
mode_of [] = local
mode_of (c ∷ t) = if c == b'g' then global else if c == b'd' then domain else local

abbrev pub is_domain_path : Text → Bool
is_domain_path [] = false
is_domain_path (c ∷ t) = c == b'd'

-- fdja_set(object, key, val), where a null value takes the entry away
abbrev pub set_entry : Text → Option Value → Fields → Fields
set_entry key none fs = take_out key fs
set_entry key (some v) fs = put key v fs

module _ (paths : Paths) where
  -- merge_domain_vars(dom)
  abbrev pub merge_domain_vars : Text → Fields → Fields
  merge_domain_vars dom fs = elim (paths.file dom) [ none ↦ fs | some o ↦ merge fs o ]

  unfoldable pub merge_all : List Text → Fields → Fields
  merge_all [] fs = fs
  merge_all (d ∷ ds) fs = merge_all ds (merge_domain_vars d fs)

  -- lookup_domain_var(key), of the id of the execution, if it has one. An id without a dash, with
  -- which the C code reads out of bounds, has no variables here.
  unfoldable pub lookup_domain_var : Option Text → Text → Option Value
  unfolding merge_all dotted
  lookup_domain_var none key = none
  lookup_domain_var (some exid) key = elim (before dash exid) [
    | none ↦ none
    | some dom ↦ paths.look key (merge_all (codes "any" ∷ domains dom) end)
  ]

  abbrev pub look_in : Text → Option Fields → Option Value
  look_in key none = none
  look_in key (some fs) = paths.look key fs

  -- lookup_var(node, mode, key), for the modes 'l' and 'g': in the variables of each node on the
  -- way up, and then in those of the domain
  unfoldable pub lookup_up : ℕ → Option Text → Mode → Exec → Text → Text → Option Value
  unfolding lookup_var_node
  lookup_up zero exid mode s nid key = none
  lookup_up (suc fuel) exid mode s nid key =
      let above : Option Value = elim (parent s nid) [
        | none ↦ lookup_domain_var exid key
        | some p ↦ lookup_up fuel exid mode s p key
      ] in
      elim (lookup_var_node (suc fuel) mode s nid) [
        | none ↦ none
        | some n ↦ elim (look_in key (vars_in (find_node s n))) [ some v ↦ some v | none ↦ above ]
      ]

  -- lookup_var(node, mode, key)
  unfoldable pub lookup_var : ℕ → Option Text → Mode → Exec → Text → Text → Option Value
  unfolding lookup_up
  lookup_var fuel exid domain s nid key = lookup_domain_var exid key
  lookup_var fuel exid mode s nid key = lookup_up fuel exid mode s nid key

  abbrev pub with_var : Text → Option Value → Node → Node
  with_var key val v = record v {
    vars = elim v.vars [ none ↦ none | some fs ↦ some (paths.store key val fs) ];
  }

  -- set_var(node, mode, key, val)
  unfoldable pub set_var : ℕ → Mode → Text → Option Value → Exec → Text → Exec
  unfolding lookup_var_node
  set_var fuel mode key val s nid = elim (lookup_var_node fuel mode s nid) [
    | none ↦ s
    | some n ↦ update_node n (with_var key val) s
  ]

  -- lookup_war(node, key), and set_war(node, key, val): the wars of the parent
  unfoldable pub lookup_war : Exec → Text → Text → Option Value
  lookup_war s nid key = elim (parent s nid) [
    | none ↦ none
    | some p ↦ elim (find_node s p) [ none ↦ none | some v ↦ look_in key v.wars ]
  ]

  abbrev pub with_war : Text → Option Value → Node → Node
  with_war key val v = record v {
    wars = elim v.wars [
      | none ↦ some (set_entry key val end)
      | some fs ↦ some (set_entry key val fs)
    ];
  }

  unfoldable pub set_war : Text → Option Value → Exec → Text → Exec
  set_war key val s nid = elim (parent s nid) [
    | none ↦ s
    | some p ↦ update_node p (with_war key val) s
  ]

  abbrev pub store_in : Text → Option Value → Option Value → Option Value
  store_in key val (some (obj fs)) = some (obj (paths.store key val fs))
  store_in key val p = p

  -- rcv_set(node, rcv) once the first attribute is expanded, by its text
  unfoldable pub assign : ℕ → Text → Exec → Node → Msg → Reply
  unfolding set_var set_war extract_prefix
  assign fuel satt s node m =
      if is_domain_path satt then reply over s m else elim (extract_prefix satt) [
        | none ↦ reply over s (record m { payload = store_in satt (ret m) m.payload })
        | some k ↦
            let key = text_or (after b'.' satt) [] in
            if k == b'f'
            then reply over s (record m { payload = store_in key (ret m) m.payload })
            else if k == b'v'
            then reply over (set_var fuel (mode_of satt) key (ret m) s node.nid) m
            else reply over (set_war key (ret m) s node.nid) m
      ]

-- exe_set(node, exe)
unfoldable pub exe_set : Exec → Node → Msg → Reply
exe_set s node m =
    if ltb (child_count s node m) 1
    then reply over s m
    else reply ok (queue_child_execute (nid_child node.nid 0) node m none none s) m
