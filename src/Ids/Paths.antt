-- ===== src/Ids/Paths.antt =====
-- Child, parent, index and depth of a node id belong together.
use flon.Base.{
  [], if◌then◌else◌, ℕ, ◌≡◌, refl, sym, false, Option, none, some, ◌∷◌, ◌++◌, inl, inr, ◌<◌, Bool,
  arith,
}
use mathlib.Core.List.{append_assoc}
use flon.Base.Text.{
  Text, before, has_byte, before_iff_none, before-append, after-append, has_byte-append, split_last,
  after, split_last-append,
}
use flon.Base.Hex.{hex, IsHex, AllHex, hex-IsHex, has_byte_hex, is_hex_digit, u32, strtoll16-hex}
use flon.Ids.{dash, underscore, nid_child, nid_parent, nid_index}

-- `node`, or `node-counter`
abbrev pub nid_of : Text → Option Text → Text
nid_of node none = node
nid_of node (some counter) = node ++ dash ∷ counter

-- The grammar's `_node`: hexadecimal numbers joined by `_`.
pub data IsNode : Text → Type 0 where
  root : {t : Text} → IsHex t → IsNode t
  child : {t node h : Text} → IsNode node → IsHex h → t ≡ node ++ underscore ∷ h → IsNode t

abbrev pub IsCounter : Option Text → Type 0
IsCounter none = Unit
IsCounter (some c) = IsHex c

pub IsHex-AllHex : (t : Text) → IsHex t → AllHex t
unfolding is_hex_digit
IsHex-AllHex t (inl e) = rw e (refl, tt)
IsHex-AllHex t (inr p) = rw (p.splits) (p.first_hex, p.rest_hex)

pub IsHex-lacks : (s : ℕ) (t : Text) → is_hex_digit s ≡ false → IsHex t → has_byte s t ≡ false
IsHex-lacks s t e h = has_byte_hex s t e (IsHex-AllHex t h)

pub IsHex-no_dash : (t : Text) → IsHex t → has_byte dash t ≡ false
unfolding is_hex_digit
IsHex-no_dash t h = has_byte_hex dash t refl (IsHex-AllHex t h)

pub IsHex-no_underscore : (t : Text) → IsHex t → has_byte underscore t ≡ false
unfolding is_hex_digit
IsHex-no_underscore t h = has_byte_hex underscore t refl (IsHex-AllHex t h)

no_dash-child :
    (node h : Text)
    → has_byte dash node ≡ false
    → has_byte dash h ≡ false
    → has_byte dash (node ++ underscore ∷ h) ≡ false
unfolding has_byte
no_dash-child node h a b = rw (has_byte-append dash node (underscore ∷ h), a) b

pub IsNode-no_dash : {t : Text} → IsNode t → has_byte dash t ≡ false
IsNode-no_dash {t} (root h) = IsHex-no_dash t h
IsNode-no_dash (child {t} {node} {h} n k e) =
    rw e (no_dash-child node h (IsNode-no_dash n) (IsHex-no_dash h k))

abbrev pub child_node : Text → ℕ → Text
child_node node n = node ++ underscore ∷ hex n

pub IsNode-child_node : {node : Text} (n : ℕ) → IsNode node → IsNode (child_node node n)
IsNode-child_node n h = child h (hex-IsHex n) refl

before-none : (t : Text) → has_byte dash t ≡ false → before dash t ≡ none
before-none t h = (before_iff_none dash t).1 h

pub nid_child-nid_of :
    {node : Text} (c : Option Text) (n : ℕ)
    → IsNode node
    → nid_child (nid_of node c) n ≡ nid_of (child_node node n) c
unfolding nid_child
nid_child-nid_of {node} none n h = rw (before-none node (IsNode-no_dash h), nid_child)
nid_child-nid_of {node} (some c) n h =
    rw
      (
        before-append dash node c (IsNode-no_dash h),
        after-append dash node c (IsNode-no_dash h),
        nid_child,
      )
      (sym (append_assoc node (underscore ∷ hex n) (dash ∷ c)))

after-none : (t : Text) → has_byte dash t ≡ false → after dash t ≡ none
unfolding after has_byte
after-none [] h = refl
after-none (x ∷ t) h = ground (arith, after-none t)

pub hex-no_underscore : (n : ℕ) → has_byte underscore (hex n) ≡ false
hex-no_underscore n = IsHex-no_underscore (hex n) (hex-IsHex n)

-- The last `_` of a child's id is the one in front of its index, a counter having none.
split_last-child :
    (node : Text) (c : Option Text) (n : ℕ)
    → IsCounter c
    → split_last underscore (nid_of (child_node node n) c) ≡ some (node, nid_of (hex n) c)
unfolding has_byte
split_last-child node none n h = split_last-append underscore node (hex n) (hex-no_underscore n)
split_last-child node (some c) n h = rw (append_assoc node (underscore ∷ hex n) (dash ∷ c)) (
    split_last-append underscore node (hex n ++ dash ∷ c) (
      rw (has_byte-append underscore (hex n) (dash ∷ c), hex-no_underscore n)
        (IsHex-no_underscore c h)))

-- The parent of a child is the node itself; with `chop` the counter is cut off.
pub nid_parent-nid_child :
    {node : Text} (c : Option Text) (n : ℕ) (chop : Bool)
    → IsNode node
    → IsCounter c
    → nid_parent (nid_child (nid_of node c) n) chop ≡ some (if chop then node else nid_of node c)
unfolding nid_parent
nid_parent-nid_child {node} c n chop h k =
    rw (nid_child-nid_of c n h) (parent_of c k (split_last-child node c n k))
  where
    below : has_byte dash (child_node node n) ≡ false
    below = IsNode-no_dash (IsNode-child_node n h)

    parent_of :
        (c : Option Text)
        → IsCounter c
        → split_last underscore (nid_of (child_node node n) c) ≡ some (node, nid_of (hex n) c)
        → nid_parent (nid_of (child_node node n) c) chop
          ≡ some (if chop then node else nid_of node c)
    parent_of none k e = ground (arith, e, after-none (child_node node n) below)
    parent_of (some c) k e = ground (arith, e, after-append dash (child_node node n) c below)

nid_index-child_node :
    (node : Text) (c : Option Text) (n : ℕ)
    → IsCounter c
    → n < u32
    → nid_index (nid_of (child_node node n) c) ≡ n
unfolding nid_index
nid_index-child_node node none n k lt = ground (
  arith,
  split_last-child node none n k,
  before-none (hex n) (IsHex-no_dash (hex n) (hex-IsHex n)),
  strtoll16-hex n,
)
nid_index-child_node node (some c) n k lt = ground (
  arith,
  split_last-child node (some c) n k,
  before-append dash (hex n) c (IsHex-no_dash (hex n) (hex-IsHex n)),
  strtoll16-hex n,
)

-- The index of the n-th child is n, counter or not.
pub nid_index-nid_child :
    {node : Text} (c : Option Text) (n : ℕ)
    → IsNode node
    → IsCounter c
    → n < u32
    → nid_index (nid_child (nid_of node c) n) ≡ n
nid_index-nid_child {node} c n h k lt =
    rw (nid_child-nid_of c n h) (nid_index-child_node node c n k lt)
