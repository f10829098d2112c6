-- ===== src/Json.antt =====
-- The values of the JSON library djan (src/lib/djan.h, `fdja_value`) as data, with the accesses to
-- arrays and objects that the sources make, and src/fl_tree.c, which tells trees from other values.
pub mod Trees
mod Tests
use flon.Base.{
  ◌≡◌, refl, arith, ℕ, zero, suc, Bool, true, false, ◌&&◌, Option, none, some, List, [], ◌∷◌,
  if◌then◌else◌,
}
use flon.Base.Text.{Text, codes, text_eq, text_eq_iff}

-- The constructors are the types '0', 't' and 'f', 'n', 's', 'q', 'y', 'a' and 'o'.
mutual
  pub data Value : Type 0 where
    null : Value
    bool : Bool → Value
    num : Text → Value
    str : Text → Value
    quoted : Text → Value
    sym : Text → Value
    arr : Items → Value
    obj : Fields → Value

  pub data Items : Type 0 where
    nil : Items
    cons : Value → Items → Items

  pub data Fields : Type 0 where
    end : Fields
    field : Text → Value → Fields → Fields

-- fdja_is_stringy
unfoldable pub is_stringy : Value → Bool
is_stringy (str t) = true
is_stringy (quoted t) = true
is_stringy (sym t) = true
is_stringy _ = false

unfoldable pub is_object : Value → Bool
is_object (obj fs) = true
is_object _ = false

unfoldable pub is_number : Value → Bool
is_number (num t) = true
is_number _ = false

-- The entry of an object; the first of that key.
unfoldable pub get : Text → Fields → Option Value
get k end = none
get k (field j v fs) = let rest = get k fs in if text_eq j k then some v else rest

-- fdja_set: in the place of the entry of that key, or behind all others.
unfoldable pub put : Text → Value → Fields → Fields
put k v end = field k v end
put k v (field j w fs) =
    let rest = put k v fs in if text_eq j k then field k v fs else field j w rest

-- fdja_set(object, key, NULL): the first entry of that key goes.
unfoldable pub take_out : Text → Fields → Fields
take_out key end = end
take_out key (field k v fs) =
    let rest = take_out key fs in if text_eq k key then fs else field k v rest

-- fdja_at, on an array
unfoldable pub at : Items → ℕ → Option Value
at nil i = none
at (cons v vs) zero = some v
at (cons v vs) (suc i) = at vs i

-- fdja_size, of an array
unfoldable pub size : Items → ℕ
size nil = 0
size (cons v vs) = suc (size vs)

-- fdja_push, on an array
unfoldable pub push : Items → Value → Items
push nil w = cons w nil
push (cons v vs) w = cons v (push vs w)

unfoldable pub is_array : Value → Bool
is_array (arr vs) = true
is_array _ = false

-- flon_is_tree(v): head, attributes, line, children, and whatever stands behind. An array as the
-- head has to be a tree itself.
unfoldable mutual
  pub is_tree : Value → Bool
  is_tree (arr (cons head (cons atts (cons line (cons (arr children) rest))))) =
      (if is_array head then is_tree head else true)
      && (is_object atts && (is_number line && all_trees children))
  is_tree _ = false

  pub all_trees : Items → Bool
  all_trees nil = true
  all_trees (cons v vs) = is_tree v && all_trees vs

-- What is read from an object after a write.
pub get-put :
    (k j : Text) (v : Value) (fs : Fields)
    → get j (put k v fs) ≡ (if text_eq k j then some v else get j fs)
unfolding get put
get-put k j v end = refl
get-put k j v (field i w fs) =
    ground (arith, text_eq_iff k j, text_eq_iff i k, text_eq_iff i j, get-put k j v fs)

pub get-take_out :
    (k j : Text) (fs : Fields) → text_eq k j ≡ false → get j (take_out k fs) ≡ get j fs
unfolding get take_out
get-take_out k j end h = refl
get-take_out k j (field i w fs) h =
    ground (arith, text_eq_iff k j, text_eq_iff i k, text_eq_iff i j, get-take_out k j fs h)
