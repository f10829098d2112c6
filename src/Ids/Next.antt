-- ===== src/Ids/Next.antt =====
-- Siblings, depth and descent, by what the grammar of src/fl_ids.c says of node ids.
use flon.Base.{
  ℕ, suc, ◌+◌, ◌<◌, ◌≡◌, ◌≢◌, ◌↔◌, inl, inr, refl, sym, ◌∙◌, ap, arith, true, false, Option, none,
  some, [], ◌∷◌, ◌++◌,
}
use flon.Base.Text.{
  Text, codes, text_eq_iff, text_eq_refl, has_byte, split_last-none, split_last-append,
  has_byte-append, has_prefix_iff, text_eq,
}
use flon.Base.Hex.{hex, strtoll16, u32, strtoll16-hex, is_hex_digit, IsHex}
use flon.Ids.{
  dash, underscore, Grammar, NidParts, base_name, parse_nid, nid_next, nid_child, nid_depth,
  count_underscores, is_plain_receive, text_or, parts_of,
}
use flon.Ids.Paths.{
  nid_of, IsNode, IsCounter, child_node, IsNode-child_node, IsNode-no_dash, nid_child-nid_of,
  hex-no_underscore, root, IsHex-lacks, child,
}

-- What the grammar's `_nid` promises of an id: a tree with the two parts, found by name.
pub record ParsesNids (g : Grammar) : Type 0 where
  pub parsed :
      (node : Text) (c : Option Text)
      → IsNode node
      → IsCounter c
      → (t : Text → Option Text) × (g (nid_of node c) ≡ some t)
        × (t (codes "node") ≡ some node)
        × (t (codes "counter") ≡ c)

IsNode-no_slash : {t : Text} → IsNode t → has_byte b'/' t ≡ false
unfolding has_byte is_hex_digit
IsNode-no_slash {t} (root h) = IsHex-lacks b'/' t refl h
IsNode-no_slash (child {t} {node} {h} n k e) =
    rw e (
      rw (has_byte-append b'/' node (underscore ∷ h), IsNode-no_slash n)
        (IsHex-lacks b'/' h refl k))

nid_of-no_slash :
    (node : Text) (c : Option Text)
    → IsNode node
    → IsCounter c
    → has_byte b'/' (nid_of node c) ≡ false
unfolding has_byte is_hex_digit
nid_of-no_slash node none h k = IsNode-no_slash h
nid_of-no_slash node (some c) h k =
    rw (has_byte-append b'/' node (dash ∷ c), IsNode-no_slash h) (IsHex-lacks b'/' c refl k)

base_name_plain : (s : Text) → has_byte b'/' s ≡ false → base_name s ≡ s
unfolding base_name
base_name_plain s h = ground (arith, split_last-none b'/' s h)

parse_nid_tree :
    (g : Grammar) (s : Text) (t : Text → Option Text)
    → has_byte b'/' s ≡ false
    → g s ≡ some t
    → parse_nid g s ≡ some (parts_of s t)
unfolding parse_nid
parse_nid_tree g s t h e = ground (arith, base_name_plain s h, e)

-- The parts that `flon_parse_nid` finds in an id.
parse_nid-nid_of :
    {g : Grammar} (p : ParsesNids g) (node : Text) (c : Option Text)
    → IsNode node
    → IsCounter c
    → (i : NidParts) × (parse_nid g (nid_of node c) ≡ some i)
      × (i.node ≡ some node)
      × (i.counter ≡ c)
parse_nid-nid_of {g} p node c h k =
    let (t, e, en, ec) = p.parsed node c h k in
    (
      parts_of (nid_of node c) t,
      parse_nid_tree g (nid_of node c) t (nid_of-no_slash node c h k) e,
      en,
      ec,
    )

count_underscores-append :
    (a b : Text) → count_underscores (a ++ b) ≡ count_underscores a + count_underscores b
unfolding count_underscores
count_underscores-append [] b = omega arith
count_underscores-append (x ∷ a) b = ground (arith, count_underscores-append a b)

count_underscores_none : (t : Text) → has_byte underscore t ≡ false → count_underscores t ≡ 0
unfolding count_underscores has_byte
count_underscores_none [] h = refl
count_underscores_none (x ∷ t) h = ground (arith, count_underscores_none t)

count_underscores-child_node :
    (node : Text) (n : ℕ) → count_underscores (child_node node n) ≡ suc (count_underscores node)
count_underscores-child_node node n =
    count_underscores-append node (underscore ∷ hex n)
    ∙ (unfold count_underscores in
        omega (arith, count_underscores_none (hex n) (hex-no_underscore n)))

nid_next_parsed :
    (g : Grammar) (nid : Text) (v : NidParts) (node : Text) (c : Option Text) (i increment : ℕ)
    → parse_nid g nid ≡ some v
    → v.node ≡ some (child_node node i)
    → v.counter ≡ c
    → c ≢ some (codes "0")
    → i + increment < u32
    → nid_next g nid increment ≡ some (nid_of (child_node node (i + increment)) c)
unfolding nid_next
nid_next_parsed g nid v node none i increment e en ec nz lt =
    ground (arith, split_last-append underscore node (hex i) (hex-no_underscore i), index_back)
  where
    index_back : strtoll16 (hex i) ≡ i
    index_back = omega (arith, strtoll16-hex i)
nid_next_parsed g nid v node (some c) i increment e en ec nz lt = ground (
  arith,
  split_last-append underscore node (hex i) (hex-no_underscore i),
  index_back,
  text_eq_iff c (codes "0"),
  nz_text,
)
  where
    index_back : strtoll16 (hex i) ≡ i
    index_back = omega (arith, strtoll16-hex i)

    nz_text : c ≢ codes "0"
    nz_text q = nz (ap some q)

-- The sibling that `flon_nid_next` gives for the i-th child of a node is the child with the sum
-- for an index, the counter kept, where the sum fits 32 bits and the counter is not "0".
pub nid_next-nid_child :
    {g : Grammar} {node : Text} (p : ParsesNids g) (c : Option Text) (i increment : ℕ)
    → IsNode node
    → IsCounter c
    → c ≢ some (codes "0")
    → i + increment < u32
    → nid_next g (nid_child (nid_of node c) i) increment
      ≡ some (nid_child (nid_of node c) (i + increment))
nid_next-nid_child {g} {node} p c i increment h k nz lt =
    let (v, e, en, ec) = parse_nid-nid_of p (child_node node i) c (IsNode-child_node i h) k in
    rw (nid_child-nid_of c i h, nid_child-nid_of c (i + increment) h)
      (nid_next_parsed g (nid_of (child_node node i) c) v node c i increment e en ec nz lt)

-- The depth of an id is the number of `_` in its node part.
nid_depth-nid_of :
    {g : Grammar} (p : ParsesNids g) (node : Text) (c : Option Text)
    → IsNode node
    → IsCounter c
    → nid_depth g (nid_of node c) ≡ count_underscores node
unfolding nid_depth has_byte
nid_depth-nid_of p node none h k = ground (arith, IsNode-no_dash h)
nid_depth-nid_of p node (some c) h k =
    let (v, e, en, ec) = parse_nid-nid_of p node (some c) h k in
    ground (arith, e, en, has_byte-append dash node (dash ∷ c))

-- A child is one deeper than its parent, counter or not.
pub nid_depth-nid_child :
    {g : Grammar} {node : Text} (p : ParsesNids g) (c : Option Text) (n : ℕ)
    → IsNode node
    → IsCounter c
    → nid_depth g (nid_child (nid_of node c) n) ≡ suc (nid_depth g (nid_of node c))
nid_depth-nid_child {g} {node} p c n h k =
    rw
      (
        nid_child-nid_of c n h,
        nid_depth-nid_of p node c h k,
        nid_depth-nid_of p (child_node node n) c (IsNode-child_node n h) k,
      )
      (count_underscores-child_node node n)

IsHex-not_empty : {t : Text} → IsHex t → t ≢ []
IsHex-not_empty (inl e) q = cc
IsHex-not_empty (inr p) q = let e = p.splits in cc

counters_iff :
    (c d : Option Text)
    → IsCounter c
    → IsCounter d
    → (text_eq (text_or c []) (text_or d []) ≡ true) ↔ (c ≡ d)
counters_iff none none h k = ((λ e. refl), λ e. text_eq_refl [])
counters_iff none (some d) h k =
    ((λ e. absurd (IsHex-not_empty k (sym ((text_eq_iff [] d).0 e)))), λ e. cc)
counters_iff (some c) none h k =
    ((λ e. absurd (IsHex-not_empty h ((text_eq_iff c []).0 e))), λ e. cc)
counters_iff (some c) (some d) h k = (
  (λ e. ap (λ (t : Text). some t) ((text_eq_iff c d).0 e)),
  λ e. (text_eq_iff c d).1 (ap (λ (o : Option Text). text_or o []) e),
)

-- A message from one node to another is a plain receive exactly if both ids have the same counter,
-- or none, and the text of the receiver's node starts the text of the emitter's.
pub is_plain_receive_iff :
    {g : Grammar} (p : ParsesNids g) (a b : Text) (c d : Option Text)
    → IsNode a
    → IsNode b
    → IsCounter c
    → IsCounter d
    → (is_plain_receive g (some (nid_of a c)) (some (nid_of b d)) ≡ true)
      ↔ ((c ≡ d) × ((rest : Text) × (a ≡ b ++ rest)))
unfolding is_plain_receive
is_plain_receive_iff {g} p a b c d ha hb hc hd =
    let (v, e, en, ec) = parse_nid-nid_of p a c ha hc in
    let (w, e', en', ec') = parse_nid-nid_of p b d hb hd in
    let same = counters_iff c d hc hd in
    let starts = has_prefix_iff b a in
    (
      (λ h. (
        same.0 (ground (arith, e, en, ec, e', en', ec')),
        starts.0 (ground (arith, e, en, ec, e', en', ec')),
      )),
      λ (q, r). ground (arith, e, en, ec, e', en', ec', same.1 q, starts.1 r),
    )
