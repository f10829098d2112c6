-- ===== src/Rewrite/Built.antt =====
-- src/n/fl_rewrite.c: trees as the code reads them, by their four first entries, and the helpers
-- that build one. What djan does to copy a value and to read its text is a parameter.
use flon.Base.{
  ℕ, suc, ◌+◌, Bool, true, false, not, ◌&&◌, Option, none, some, [], ◌∷◌, ◌==◌, leb, if◌then◌else◌,
}
use flon.Base.Text.{Text, codes, text_eq}
use flon.Base.Decimal.{decimal, decimal_digits}
use flon.Json.{
  Value, Items, Fields, arr, obj, str, quoted, nil, cons, end, field, is_stringy, is_tree, put,
}

-- A tree: head, attributes, line, children, and whatever stands behind.
pub record Tree : Type 0 where
  pub head : Value
  pub atts : Fields
  pub line : Value
  pub children : Items
  pub rest : Items

abbrev pub value_of : Tree → Value
value_of t = arr (cons t.head (cons (obj t.atts) (cons t.line (cons (arr t.children) t.rest))))

-- fdja_value_at(tree, 0) to fdja_value_at(tree, 3), where they are what the code takes them for
unfoldable pub tree_view : Value → Option Tree
tree_view (arr (cons head (cons (obj atts) (cons line (cons (arr children) rest))))) =
    some (record { head = head; atts = atts; line = line; children = children; rest = rest })
tree_view _ = none

-- What a run of the code comes to: a value, or the end of the process at a null pointer. The fuel
-- of the recursion is counted apart.
pub data Run {ℓ} (A : Type ℓ) : Type ℓ where
  done : A → Run A
  crashed out_of_fuel : Run A

infixl 1 ◌>>=◌
abbrev pub ◌>>=◌ {ℓ κ} : {A : Type ℓ} {B : Type κ} → Run A → (A → Run B) → Run B
done a >>= f = f a
crashed >>= f = crashed
out_of_fuel >>= f = out_of_fuel

-- Whether the tree was rewritten, and what it is now.
abbrev pub Pass : Type 0
Pass = Tree → Run (Bool × Tree)

-- What the library djan and the rest of the program do for the passes.
pub record Tools : Type 0 where
  -- fdja_clone(v)
  pub clone : Value → Value
  -- fdja_clone of an array, by its entries
  pub clone_all : Items → Items
  -- fdja_to_string(v), of a value that is_stringy
  pub to_text : Value → Text
  -- fdja_parse_r("set w._%zu", j, ln)
  pub set_w : ℕ → Value → Tree
  -- lookup_instruction('e', name)
  pub is_known : Text → Bool
  -- is_callable(lookup_var(node, 'l', name))
  pub is_callable : Text → Bool

-- `*key < '0' || *key > '9'`
abbrev pub all_digits : Text → Bool
all_digits [] = true
all_digits (c ∷ t) = (leb b'0' c && leb c b'9') && all_digits t

-- is_index(key)
unfoldable pub is_index : Text → Bool
is_index [] = false
is_index (c ∷ t) = c == b'_' && all_digits t

-- `_%zu`
abbrev pub index_key : ℕ → Text
index_key i = b'_' ∷ decimal i

-- The number of a key that is_index.
abbrev pub key_number : Text → ℕ
key_number [] = 0
key_number (c ∷ t) = decimal_digits t 0

-- The loop of unshift_attribute, over the keys behind the new one.
unfoldable pub bump : Fields → Fields
unfolding is_index
bump end = end
bump (field k v fs) = field (if is_index k then index_key (key_number k + 1) else k) v (bump fs)

-- unshift_attribute(name, tree), on the attributes
unfoldable pub unshift_attribute : Text → Fields → Fields
unfolding bump
unshift_attribute name fs = field (index_key 0) (str name) (bump fs)

-- fdja_size of an object
unfoldable pub width : Fields → ℕ
width end = 0
width (field k v fs) = suc (width fs)

abbrev pub is_quoted : Value → Bool
is_quoted (quoted t) = true
is_quoted _ = false

module _ (tools : Tools) where
  -- `fdja_strcmp(v, s) == 0`
  unfoldable pub says : Value → Text → Bool
  says v s = is_stringy v && text_eq (tools.to_text v) s

  -- is_op(v, op)
  unfoldable pub is_op : Text → Value → Bool
  unfolding says
  is_op op v = not (is_quoted v) && says v op

  -- v_to_tree(v, lnumber, node, msg)
  unfoldable pub v_to_tree : Value → Value → Value
  v_to_tree line v =
      if is_tree v
      then tools.clone v
      else if is_stringy v
      then arr
          (cons (tools.clone v) (cons (obj end) (cons (tools.clone line) (cons (arr nil) nil))))
      else arr (
          cons (str (codes "val")) (
            cons (obj (field (codes "_0") (tools.clone v) end))
              (cons (tools.clone line) (cons (arr nil) nil))))

  -- The loop of l_to_tree over the items behind the first: `fdja_set(atts, key, fdja_clone(v))`.
  unfoldable pub collect : ℕ → Fields → Fields → Fields
  unfolding is_index
  collect i end acc = acc
  collect i (field k v fs) acc =
      collect (i + 1) fs (put (if is_index k then index_key i else k) (tools.clone v) acc)

  -- l_to_tree of a list of more than one item; also of one alone, where that is_stringy
  unfoldable pub call_tree : Value → Value → Fields → Tree
  unfolding collect
  call_tree line v fs = record {
    head = tools.clone v;
    atts = collect 0 fs end;
    line = tools.clone line;
    children = nil;
    rest = nil;
  }

  -- l_to_tree(l, lnumber, node, msg); it reads the first item of an empty list
  unfoldable pub l_to_tree : Value → Fields → Run Value
  unfolding v_to_tree call_tree
  l_to_tree line end = crashed
  l_to_tree line (field k v end) = done (v_to_tree line v)
  l_to_tree line (field k v (field j w fs)) = done (value_of (call_tree line v (field j w fs)))
