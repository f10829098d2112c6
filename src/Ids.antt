-- ===== src/Ids.antt =====
-- src/fl_ids.c: identifiers of executions and of nodes. A node id is `0_1_2`, the path of the node
-- in the tree in hexadecimal numbers, or `0_1_2-ff` with the counter of a call behind it.
-- `fabr_parse_all(s, _root)`, the parse by the grammar at the top of the file, is a parameter.
pub mod Paths
pub mod Next
pub mod Tests
use flon.Base.{
  ℕ, zero, suc, ◌+◌, ◌%◌, Bool, true, false, not, Option, none, some, List, [], ◌∷◌, ◌++◌, ◌==◌,
  if◌then◌else◌, is_some,
}
use flon.Base.Text.{Text, codes, text_eq, has_prefix, before, after, has_byte, split_last}
use flon.Base.Hex.{hex, strtoll16, u32}

abbrev pub dash : ℕ
dash = b'-'

abbrev pub underscore : ℕ
underscore = b'_'

abbrev pub text_or : Option Text → Text → Text
text_or none d = d
text_or (some t) d = t

-- What `fabr_parse_all` with `_root` gives: no tree, or what the tree holds under each name.
abbrev pub Grammar : Type 0
Grammar = Text → Option (Text → Option Text)

-- The object that `flon_parse_nid` builds.
pub record NidParts : Type 0 where
  pub msg : Option Text
  pub exid : Option Text
  pub domain : Option Text
  pub feu : Option Text
  pub tid : Option Text
  pub nid : Option Text
  pub node : Option Text
  pub counter : Option Text
  pub ftype : Option Text
  pub uri : Option Text

-- What stands behind the last slash.
unfoldable pub base_name : Text → Text
base_name s = elim (split_last b'/' s) [ none ↦ s | some (a, b) ↦ b ]

-- The keys that `flon_parse_nid` copies out of a tree `t`; a text with a slash is kept whole.
abbrev pub parts_of : Text → (Text → Option Text) → NidParts
parts_of s t = record {
  msg = t (codes "msg");
  exid = t (codes "exid");
  domain = t (codes "domain");
  feu = t (codes "feu");
  tid = t (codes "tid");
  nid = t (codes "nid");
  node = t (codes "node");
  counter = t (codes "counter");
  ftype = t (codes "ftype");
  uri = if has_byte b'/' s then some s else none;
}

-- flon_parse_nid(s)
unfoldable pub parse_nid : Grammar → Text → Option NidParts
unfolding base_name
parse_nid g s = elim (g (base_name s)) [ none ↦ none | some t ↦ some (parts_of s t) ]

-- flon_get_exid(s)
unfoldable pub get_exid : Grammar → Text → Option Text
get_exid g s = elim (parse_nid g s) [ none ↦ none | some v ↦ v.exid ]

-- flon_get_nid(s)
unfoldable pub get_nid : Grammar → Text → Option Text
get_nid g s = elim (parse_nid g s) [ none ↦ none | some v ↦ v.nid ]

-- flon_exid_domain(exid)
unfoldable pub exid_domain : Text → Option Text
exid_domain exid = before dash exid

-- flon_nid_next(nid, increment). `%x` takes the low 32 bits of the sum; a negative increment is
-- given modulo 2^32, as an int is stored.
unfoldable pub nid_next : Grammar → Text → ℕ → Option Text
nid_next g nid increment = elim (parse_nid g nid) [
  | none ↦ none
  | some i ↦ elim i.node [
    | none ↦ none
    | some node ↦ elim (split_last underscore node) [
      | none ↦ none
      | some (front, u) ↦
          let next = front ++ underscore ∷ hex (strtoll16 u + increment) in
          elim i.counter [
            | none ↦ some next
            | some counter ↦
                if text_eq counter (codes "0") then some next else some (next ++ dash ∷ counter)
          ]
    ]
  ]
]

-- flon_nid_parent(nid, chop)
unfoldable pub nid_parent : Text → Bool → Option Text
nid_parent nid chop = elim (split_last underscore nid) [
  | none ↦ none
  | some (front, u) ↦ elim (after dash nid) [
    | none ↦ some front
    | some counter ↦ if not chop then some (front ++ dash ∷ counter) else some front
  ]
]

-- flon_nid_child(nid, n)
unfoldable pub nid_child : Text → ℕ → Text
nid_child nid n = elim (before dash nid) [
  | none ↦ nid ++ underscore ∷ hex n
  | some node ↦ node ++ underscore ∷ (hex n ++ dash ∷ text_or (after dash nid) [])
]

-- The loop of `flon_nid_depth`: how often `_` stands in the text.
unfoldable pub count_underscores : Text → ℕ
count_underscores [] = 0
count_underscores (c ∷ s) =
    let rest = count_underscores s in if c == underscore then suc rest else rest

-- flon_nid_depth(nid)
unfoldable pub nid_depth : Grammar → Text → ℕ
unfolding count_underscores
nid_depth g nid =
    if has_byte dash nid
    then elim (parse_nid g nid) [ none ↦ 0 | some i ↦ count_underscores (text_or i.node []) ]
    else count_underscores nid

-- flon_nid_index(nid)
unfoldable pub nid_index : Text → ℕ
nid_index nid =
    let un : Text = elim (split_last underscore nid) [ none ↦ nid | some (front, u) ↦ u ] in
    strtoll16 (text_or (before dash un) un)

-- flon_point_to_prefix(point)
unfoldable pub point_to_prefix : Option Text → Text
point_to_prefix none = codes "UNK_"
point_to_prefix (some []) = codes "UNK_"
point_to_prefix (some (c ∷ t)) =
    if c == b'e'
    then codes "exe_"
    else if c == b'i'
    then codes "inv_"
    else if c == b's'
    then codes "sch_"
    else if c == b'r'
    then codes "rcv_"
    else if c == b'c'
    then codes "can_"
    else if c == b't'
    then codes "tsk_"
    else codes "UNK_"

-- Same counter, and the emitter's node starts with the receiver's.
unfoldable pub descends : NidParts → NidParts → Bool
descends em re =
    if not (text_eq (text_or em.counter []) (text_or re.counter []))
    then false
    else has_prefix (text_or re.node []) (text_or em.node [])

-- flon_is_plain_receive(msg), on the `from` and the `nid` of the message
unfoldable pub is_plain_receive : Grammar → Option Text → Option Text → Bool
unfolding descends
is_plain_receive g none receiver = false
is_plain_receive g (some emitter) none = false
is_plain_receive g (some emitter) (some receiver) = elim (parse_nid g emitter) [
  | none ↦ false
  | some em ↦ elim (parse_nid g receiver) [ none ↦ false | some re ↦ descends em re ]
]
