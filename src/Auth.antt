-- ===== src/Auth.antt =====
-- src/fl_lis_auth.c: who may do what in which domain. `flu_split`, the reading of the two files
-- of etc/ and `ftsi_bc_verify` are parameters.
pub mod Domain
pub mod Rights
pub mod Tests
use flon.Base.{
  ℕ, Bool, true, false, ◌||◌, not, Option, none, some, List, [], ◌∷◌, if◌then◌else◌, ◌==◌,
}
use flon.Base.Text.{Text, codes, text_eq, strip_prefix, before, has_byte}

abbrev pub star : Text
star = codes "*"

abbrev pub double_star : Text
double_star = codes "**"

abbrev pub is_nil : List Text → Bool
is_nil [] = true
is_nil (x ∷ xs) = false

-- `pn->next->item`, read only where there is a next segment
abbrev pub head_or_empty : List Text → Text
head_or_empty [] = []
head_or_empty (x ∷ xs) = x

-- `while (dn->next && strcmp(dn->item, stop) != 0) dn = dn->next;`
unfoldable pub skip_to : Text → List Text → List Text
skip_to stop [] = []
skip_to stop (x ∷ rest) =
    let later = skip_to stop rest in
    if is_nil rest then x ∷ rest else if text_eq x stop then x ∷ rest else later

-- The loop of `flon_dom_matches` over the segments of the pattern. No pattern left is the loop's
-- end, where `r` is set only if no domain segment is left either.
unfoldable pub walk : List Text → List Text → Bool
unfolding skip_to
walk [] [] = true
walk (x ∷ d) [] = false
walk [] (p ∷ ps) = if text_eq p double_star then is_nil ps else false
walk (x ∷ d) (p ∷ ps) =
    let next = walk d ps in
    let jumped = walk (skip_to (head_or_empty ps) (x ∷ d)) ps in
    if text_eq p star
    then next
    else if text_eq p double_star
    then (if is_nil ps then true else jumped)
    else if not (text_eq x p)
    then false
    else next

-- With no pattern segment at all the loop never runs, and `r` stays 0.
unfoldable pub segments_match : List Text → List Text → Bool
unfolding walk
segments_match d [] = false
segments_match d (p ∷ ps) = walk d (p ∷ ps)

-- `strdup(dom)`, cut at its first dash
unfoldable pub domain_part : Text → Text
domain_part dom = elim (before b'-' dom) [ none ↦ dom | some d ↦ d ]

module _ (split : Text → List Text) where
  -- flon_dom_matches(dom, pat)
  unfoldable pub dom_matches : Text → Text → Bool
  unfolding segments_match
  dom_matches dom pat = segments_match (split dom) (split pat)

  -- The loop of `flon_may` over the entries (pattern, rights) of a user.
  unfoldable pub may_in : ℕ → Text → List (Text × Text) → Bool
  may_in right d [] = false
  may_in right d ((pat, rights) ∷ rest) =
      let later = may_in right d rest in
      if not (dom_matches d pat) then later else if has_byte right rights then true else later

-- `dom[l] == '\0' || dom[l] == '.'`
unfoldable pub ends_segment : Text → Bool
ends_segment [] = true
ends_segment (c ∷ r) = c == b'.'

-- flon_is_subdomain(root, dom)
unfoldable pub is_subdomain : Text → Text → Bool
is_subdomain root dom = elim (strip_prefix root dom) [ none ↦ false | some r ↦ ends_segment r ]

pub record User : Type 0 where
  pub pass : Option Text

-- The two static variables: what `load_passwd` and `load_domain` keep once it has been read.
pub record Cache : Type 0 where
  pub passwd : Option (Text → Option User)
  pub domain : Option (Text → Option (List (Text × Text)))

-- What the parse of a file of etc/ gives now; `none` is a parse that failed.
pub record Files : Type 0 where
  pub passwd_json : Option (Text → Option User)
  pub domain_json : Option (Text → Option (List (Text × Text)))

-- load_passwd() and load_domain(): a file is read until it could be read once
unfoldable pub load_passwd : Files → Cache → Cache × Bool
load_passwd f c = elim c.passwd [
  | some p ↦ (c, true)
  | none ↦ elim f.passwd_json [ none ↦ (c, false) | some p ↦ (record c { passwd = some p }, true) ]
]

unfoldable pub load_domain : Files → Cache → Cache × Bool
load_domain f c = elim c.domain [
  | some p ↦ (c, true)
  | none ↦ elim f.domain_json [ none ↦ (c, false) | some p ↦ (record c { domain = some p }, true) ]
]

-- flon_may(right, user, dom); a null pointer is `none`
unfoldable pub may :
    (Text → List Text) → Files → Cache → ℕ → Option Text → Option Text → Cache × Bool
may split f c right none dom = (c, false)
may split f c right (some user) none = (c, false)
may split f c right (some user) (some dom) =
    let (c', loaded) = load_domain f c in
    if not loaded then (c', false) else elim c'.domain [
      | none ↦ (c', false)
      | some db ↦ elim (db user) [
        | none ↦ (c', false)
        | some entries ↦ (c', may_in split right (domain_part dom) entries)
      ]
    ]

abbrev pub dummy_hash : Text
dummy_hash = codes "$2a$08$3xtQyM06K85SCaL2u8EadeO8FwLd5M1xEb4/mtxRaArfx1MFB9/QK"

-- `u ? fdja_ls(u, "pass", NULL) : NULL`
abbrev pub stored_hash : Option User → Option Text
stored_hash none = none
stored_hash (some u) = u.pass

-- flon_auth_enticate(e, realm, user, pass): a hash is verified for unknown users too.
unfoldable pub auth_enticate :
    (Text → Text → Bool) → Files → Cache → Text → Text → Cache × Option Text
auth_enticate verify f c user pass =
    let (c', loaded) = load_passwd f c in
    if not loaded then (c', none) else elim c'.passwd [
      | none ↦ (c', none)
      | some db ↦ elim (stored_hash (db user)) [
        | none ↦ let r = verify pass dummy_hash in (c', none)
        | some hash ↦ let r = verify pass hash in (c', (if r then some user else none))
      ]
    ]
