-- ===== src/Inst/Vars/Found.antt =====
-- src/fl_exe_instructions.c: set_var and then lookup_var.
use flon.Base.{
  ℕ, zero, suc, Bool, leb, ◌&&◌, ◌||◌, ◌==◌, ◌∷◌, false, ◌≡◌, ◌≢◌, refl, ◌∙◌, ap, arith, true,
  Option, none, some, [], if◌then◌else◌, is_some,
}
use flon.Base.Text.{Text, text_eq, text_eq_refl}
use flon.Json.{Value, Fields}
use flon.State.{Node, Exec, find_node, update_node}
use flon.State.Store.{find_in-update_in, map_option}
use flon.State.Tree.{flon_parent_nid}
use flon.Inst.Vars.{
  Mode, local, global, domain, Paths, parent, vars_in, lookup_var_node, look_in, lookup_up,
  lookup_var, with_var, set_var,
}

-- A key of letters, digits and _ alone, one at least: as a path it is one step.
abbrev pub is_key_byte : ℕ → Bool
is_key_byte c =
    (leb b'a' c && leb c b'z')
    || ((leb b'A' c && leb c b'Z') || ((leb b'0' c && leb c b'9') || c == b'_'))

abbrev pub is_plain_key : Text → Bool
is_plain_key [] = false
is_plain_key (c ∷ []) = is_key_byte c
is_plain_key (c ∷ (d ∷ t)) = is_key_byte c && is_plain_key (d ∷ t)

-- A value that is stored under a plain key is what that key reads then.
pub record Stores (paths : Paths) : Type 0 where
  pub stored :
      (key : Text) (val : Value) (fs : Fields)
      → is_plain_key key ≡ true
      → paths.look key (paths.store key (some val) fs) ≡ some val

abbrev up : (Text → Option Text) → Option Text → Option Text
up f none = none
up f (some p) = f p

up_same : (f g : Text → Option Text) (o : Option Text) → ((p : Text) → f p ≡ g p) → up f o ≡ up g o
up_same f g none h = refl
up_same f g (some p) h = h p

lift :
    {A : Type 0} (f : Text → Option Text) (n : Text) (o : Option Text)
    → ((p : Text) → f p ≡ some n → A)
    → up f o ≡ some n
    → A
lift f n none h e = cc
lift f n (some p) h e = h p e

module _ (paths : Paths) (key : Text) (val : Option Value) (n : Text) where
  abbrev stored_in : Option Fields → Option Fields
  stored_in none = none
  stored_in (some fs) = some (paths.store key val fs)

  abbrev after : Exec → Exec
  after s = update_node n (with_var paths key val) s

  found_after :
      (s : Exec) (j : Text)
      → find_node (after s) j ≡ (
          if text_eq n j
          then map_option (with_var paths key val) (find_node s j)
          else find_node s j)
  unfolding find_node
  found_after s j = find_in-update_in n j (with_var paths key val) s.nodes

  is_some-vars_in :
      (o : Option Node)
      → is_some (vars_in (map_option (with_var paths key val) o)) ≡ is_some (vars_in o)
  is_some-vars_in none = refl
  is_some-vars_in (some v) = kept v.vars
    where
      kept :
          (o : Option Fields)
          → is_some (elim o as (λ _. Option Fields) [
            | none ↦ none
            | some fs ↦ some (paths.store key val fs)
          ])
            ≡ is_some o
      kept none = refl
      kept (some fs) = refl

  same_up : (s : Exec) (j : Text) → flon_parent_nid (after s) j ≡ flon_parent_nid s j
  unfolding flon_parent_nid
  same_up s j = ground (arith, found_after s j)

  same_there : (s : Exec) (j : Text) → is_some (find_node (after s) j) ≡ is_some (find_node s j)
  same_there s j = ground (arith, found_after s j)

  up_there : Exec → Option Text → Option Text
  up_there s o = elim o [ none ↦ none | some p ↦ if is_some (find_node s p) then some p else none ]

  up_there_same : (s : Exec) (o : Option Text) → up_there (after s) o ≡ up_there s o
  unfolding up_there
  up_there_same s none = refl
  up_there_same s (some p) = ap (λ b. if b then some p else none) (same_there s p)

  same_parent : (s : Exec) (j : Text) → parent (after s) j ≡ parent s j
  unfolding parent up_there
  same_parent s j = ap (up_there (after s)) (same_up s j) ∙ up_there_same s (flon_parent_nid s j)

  same_vars :
      (s : Exec) (j : Text)
      → is_some (vars_in (find_node (after s) j)) ≡ is_some (vars_in (find_node s j))
  same_vars s j = ground (arith, found_after s j, is_some-vars_in (find_node s j))

  same_node :
      (fuel : ℕ) (mode : Mode) (s : Exec) (j : Text)
      → lookup_var_node fuel mode (after s) j ≡ lookup_var_node fuel mode s j
  unfolding lookup_var_node
  same_node zero mode s j = refl
  same_node (suc fuel) mode s j = ground (
    arith,
    same_vars s j,
    same_parent s j,
    up_same (lookup_var_node fuel mode (after s)) (lookup_var_node fuel mode s) (parent s j)
        (same_node fuel mode s),
  )

  -- The variables that are written are there already.
  vars_there :
      (fuel : ℕ) (mode : Mode) (s : Exec) (j : Text)
      → lookup_var_node fuel mode s j ≡ some n
      → is_some (vars_in (find_node s n)) ≡ true
  unfolding lookup_var_node
  vars_there zero mode s j e = cc
  vars_there (suc fuel) mode s j e =
      ground (arith, e, lift (lookup_var_node fuel mode s) n (parent s j) (vars_there fuel mode s))

  -- What is read where it was written.
  look_after :
      (s : Exec)
      → is_some (vars_in (find_node s n)) ≡ true
      → look_in paths key (vars_in (find_node (after s) n))
        ≡ look_in paths key (stored_in (vars_in (find_node s n)))
  look_after s e = ground (arith, found_after s n, text_eq_refl n)

module _ (paths : Paths) (stores : Stores paths) where
  read_back :
      (key : Text) (val : Value) (o : Option Fields)
      → is_plain_key key ≡ true
      → is_some o ≡ true
      → look_in paths key (stored_in paths key (some val) [] o) ≡ some val
  read_back key val none h e = cc
  read_back key val (some fs) h e = stores.stored key val fs h

  set_var_found :
      (fuel : ℕ) (mode : Mode) (key : Text) (val : Option Value) (s : Exec) (nid n : Text)
      → lookup_var_node fuel mode s nid ≡ some n
      → set_var paths fuel mode key val s nid ≡ after paths key val n s
  unfolding set_var
  set_var_found fuel mode key val s nid n e = ground arith

  lookup_up_found :
      (fuel : ℕ) (exid : Option Text) (mode : Mode) (key : Text) (val : Value) (s : Exec)
      (nid n : Text)
      → lookup_var_node (suc fuel) mode s nid ≡ some n
      → look_in paths key (vars_in (find_node s n)) ≡ some val
      → lookup_up paths (suc fuel) exid mode s nid key ≡ some val
  unfolding lookup_up
  lookup_up_found fuel exid mode key val s nid n e el = ground arith

  lookup_var_up :
      (fuel : ℕ) (exid : Option Text) (mode : Mode) (key : Text) (s : Exec) (nid : Text)
      → mode ≢ domain
      → lookup_var paths fuel exid mode s nid key ≡ lookup_up paths fuel exid mode s nid key
  unfolding lookup_var
  lookup_var_up fuel exid local key s nid ne = refl
  lookup_var_up fuel exid global key s nid ne = refl
  lookup_var_up fuel exid domain key s nid ne = absurd (ne refl)

  -- A variable that a node sets under a plain key, in its own reach or globally, is what the node then
  -- looks up under that key, as long as there is a node whose variables are meant, and what is stored
  -- under a plain key is what that key reads.
  pub lookup_var-set_var :
      (fuel : ℕ) (exid : Option Text) (mode : Mode) (key : Text) (val : Value) (s : Exec)
      (nid n : Text)
      → is_plain_key key ≡ true
      → mode ≢ domain
      → lookup_var_node (suc fuel) mode s nid ≡ some n
      → lookup_var paths
          (suc fuel)
          exid
          mode
          (set_var paths (suc fuel) mode key (some val) s nid)
          nid
          key
        ≡ some val
  lookup_var-set_var fuel exid mode key val s nid n h ne e =
      let t = after paths key (some val) n s in
      let there = vars_there paths key (some val) n (suc fuel) mode s nid e in
      ap (λ u. lookup_var paths (suc fuel) exid mode u nid key)
        (set_var_found (suc fuel) mode key (some val) s nid n e)
      ∙ lookup_var_up (suc fuel) exid mode key t nid ne
      ∙ lookup_up_found fuel exid mode key val t nid n
          (same_node paths key (some val) n (suc fuel) mode s nid ∙ e)
          (look_after paths key (some val) n s there
            ∙ read_back key val (vars_in (find_node s n)) h there)
