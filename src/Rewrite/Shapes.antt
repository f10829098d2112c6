-- ===== src/Rewrite/Shapes.antt =====
-- src/n/fl_rewrite.c: what is asked of the tools and of a tree, so that rewriting gives trees.
pub mod Parts
pub mod Heads
pub mod Operators
pub mod Kept
use flon.Base.{◌≡◌, refl, arith, Bool, true, false, ◌&&◌, List, ℕ, if◌then◌else◌, &&-true, &&-both}
use flon.Base.Text.{Text, text_eq}
use flon.Json.{
  Value, Items, Fields, nil, cons, end, field, is_array, is_stringy, is_number, is_object, is_tree,
  all_trees, put, push,
}
use flon.Rewrite.Built.{Tree, value_of, Run, done, crashed, out_of_fuel, ◌>>=◌, Pass, Tools}

-- What a value has to be to stand at the head of a tree.
abbrev pub head_ok : Value → Bool
head_ok v = if is_array v then is_tree v else true

unfoldable pub heads_ok : Fields → Bool
heads_ok end = true
heads_ok (field k v fs) = head_ok v && heads_ok fs

-- A tree with no attribute that is an array but no tree.
pub record IsGood (t : Tree) : Type 0 where
  pub head_is : head_ok t.head ≡ true
  pub atts_are : heads_ok t.atts ≡ true
  pub line_is : is_number t.line ≡ true
  pub children_are : all_trees t.children ≡ true

-- A copy is a tree, an array, a number if what it is a copy of is one.
pub record IsFaithful (tools : Tools) : Type 0 where
  pub clone-is_array : (v : Value) → is_array (tools.clone v) ≡ is_array v
  pub clone-is_tree : (v : Value) → is_tree (tools.clone v) ≡ is_tree v
  pub clone-is_number : (v : Value) → is_number (tools.clone v) ≡ is_number v
  pub clone_all-all_trees : (vs : Items) → all_trees (tools.clone_all vs) ≡ all_trees vs
  pub set_w-IsGood : (j : ℕ) (line : Value) → is_number line ≡ true → IsGood (tools.set_w j line)

-- What a run gives, if it gives something.
abbrev pub Ensures {ℓ} : {A : Type ℓ} → (A → Type 0) → Run A → Type 0
Ensures P (done a) = P a
Ensures P crashed = Unit
Ensures P out_of_fuel = Unit

pub Ensures-bind {ℓ κ} :
    {A : Type ℓ} {B : Type κ} (P : A → Type 0) (Q : B → Type 0) (r : Run A) (f : A → Run B)
    → Ensures P r
    → ((a : A) → P a → Ensures Q (f a))
    → Ensures Q (r >>= f)
Ensures-bind P Q (done a) f h k = k a h
Ensures-bind P Q crashed f h k = tt
Ensures-bind P Q out_of_fuel f h k = tt

pub Ensures-if {ℓ} :
    {A : Type ℓ} (P : A → Type 0) (r q : Run A) (b : Bool)
    → Ensures P r
    → Ensures P q
    → Ensures P (if b then r else q)
Ensures-if P r q true h k = h
Ensures-if P r q false h k = k

-- The pass gives good trees for good trees.
abbrev pub IsKind : Pass → Type 0
IsKind p = (t : Tree) → IsGood t → Ensures (λ (r : Bool × Tree). IsGood (r.1)) (p t)

pub IsGood-is_tree : (t : Tree) → IsGood t → is_tree (value_of t) ≡ true
unfolding is_tree is_object
IsGood-is_tree t g = ground (arith, g.head_is, g.line_is, g.children_are)

pub is_stringy-is_array : (v : Value) → is_stringy v ≡ true → is_array v ≡ false
unfolding is_stringy is_array
is_stringy-is_array v h = ground arith

pub heads_ok-put :
    (k : Text) (v : Value) (fs : Fields)
    → head_ok v ≡ true
    → heads_ok fs ≡ true
    → heads_ok (put k v fs) ≡ true
unfolding heads_ok put
heads_ok-put k v end h a = ground arith
heads_ok-put k v (field j w fs) h a = ground (arith, heads_ok-put k v fs h)

pub all_trees-push :
    (vs : Items) (v : Value) → all_trees vs ≡ true → is_tree v ≡ true → all_trees (push vs v) ≡ true
unfolding all_trees push
all_trees-push nil v a t = &&-both (is_tree v) true t refl
all_trees-push (cons w vs) v a t =
    let h = &&-true (is_tree w) (all_trees vs) a in
    &&-both (is_tree w) (all_trees (push vs v)) h.0 (all_trees-push vs v h.1 t)
