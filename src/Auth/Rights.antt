-- ===== src/Auth/Rights.antt =====
-- What `flon_may` and `flon_auth_enticate` grant, on every path.
use flon.Base.{
  ℕ, ◌≡◌, ◌↔◌, arith, Bool, true, Option, some, List, [], ◌∷◌, Bool-cases, Option-cases, inl, inr,
}
use flon.Base.Text.{Text, has_byte}
use flon.Auth.{
  dom_matches, domain_part, may_in, User, Cache, Files, load_passwd, load_domain, may, stored_hash,
  auth_enticate,
}

-- The entries of a user in the domain file, read before or readable now.
pub record HasEntries (f : Files) (c : Cache) (user : Text) (es : List (Text × Text)) : Type 0 where
  pub db : Text → Option (List (Text × Text))
  pub is_read : (load_domain f c).0.domain ≡ some db
  pub entries : db user ≡ some es

module _ (split : Text → List Text) where
  -- Some entry has a pattern that the domain matches, and holds the right.
  pub data Grants (right : ℕ) (d : Text) : List (Text × Text) → Type 0 where
    here :
        {pat rights : Text} {rest : List (Text × Text)}
        → dom_matches split d pat ≡ true
        → has_byte right rights ≡ true
        → Grants right d ((pat, rights) ∷ rest)
    later :
        {e : Text × Text} {rest : List (Text × Text)}
        → Grants right d rest
        → Grants right d (e ∷ rest)

  may_in-Grants :
      (right : ℕ) (d : Text) (es : List (Text × Text))
      → may_in split right d es ≡ true
      → Grants right d es
  unfolding may_in
  may_in-Grants right d [] h = cc
  may_in-Grants right d ((pat, rights) ∷ rest) h = elim (Bool-cases (may_in split right d rest)) [
    | inl t ↦ later (may_in-Grants right d rest t)
    | inr n ↦ here (ground arith) (ground arith)
  ]

  Grants-may_in :
      (right : ℕ) (d : Text) {es : List (Text × Text)}
      → Grants right d es
      → may_in split right d es ≡ true
  unfolding may_in
  Grants-may_in right d (here m h) = ground arith
  Grants-may_in right d (later {e} {rest} g) = ground (arith, Grants-may_in right d g)

  may-HasEntries :
      (f : Files) (c : Cache) (right : ℕ) (user dom : Text)
      → (may split f c right (some user) (some dom)).1 ≡ true
      → (es : List (Text × Text)) × HasEntries f c user es
        × (may_in split right (domain_part dom) es ≡ true)
  unfolding may load_domain
  may-HasEntries f c right user dom h = elim (Option-cases (load_domain f c).0.domain) [
    | inl e ↦ absurd (ground arith)
    | inr (db, e) ↦ elim (Option-cases (db user)) [
      | inl n ↦ absurd (ground arith)
      | inr (es, n) ↦ (es, record { db = db; is_read = e; entries = n }, ground arith)
    ]
  ]

  HasEntries-may :
      (f : Files) (c : Cache) (right : ℕ) (user dom : Text) {es : List (Text × Text)}
      → HasEntries f c user es
      → may_in split right (domain_part dom) es ≡ true
      → (may split f c right (some user) (some dom)).1 ≡ true
  unfolding may load_domain
  HasEntries-may f c right user dom he h = ground (arith, he.is_read, he.entries)

  -- `flon_may` says yes to a user exactly when the domain file is or can be read, has the user,
  -- and one of the user's entries matches the domain part and holds the right.
  pub may_iff_Grants :
      (f : Files) (c : Cache) (right : ℕ) (user dom : Text)
      → ((may split f c right (some user) (some dom)).1 ≡ true)
        ↔ ((es : List (Text × Text)) × HasEntries f c user es × Grants right (domain_part dom) es)
  may_iff_Grants f c right user dom = (
    λ h.
        let (es, he, m) = may-HasEntries f c right user dom h in
        (es, he, may_in-Grants right (domain_part dom) es m),
    λ p. HasEntries-may f c right user dom p.1 (Grants-may_in right (domain_part dom) p.2),
  )

-- The stored hash of a user, in a password file read before or readable now, verifies the password.
pub record Authentic (verify : Text → Text → Bool) (f : Files) (c : Cache) (user pass : Text)
    : Type 0 where
  pub db : Text → Option User
  pub is_read : (load_passwd f c).0.passwd ≡ some db
  pub hash : Text
  pub stored : stored_hash (db user) ≡ some hash
  pub verified : verify pass hash ≡ true

module _ (verify : Text → Text → Bool) (f : Files) (c : Cache) (user pass : Text) where
  auth_enticate-Authentic :
      (name : Text)
      → (auth_enticate verify f c user pass).1 ≡ some name
      → (name ≡ user) × Authentic verify f c user pass
  unfolding auth_enticate load_passwd
  auth_enticate-Authentic name h = elim (Option-cases (load_passwd f c).0.passwd) [
    | inl e ↦ absurd (ground arith)
    | inr (db, e) ↦ elim (Option-cases (stored_hash (db user))) [
      | inl n ↦ absurd (ground arith)
      | inr (hash, n) ↦ (
        ground arith,
        record { db = db; is_read = e; hash = hash; stored = n; verified = ground arith },
      )
    ]
  ]

  Authentic-auth_enticate :
      Authentic verify f c user pass → (auth_enticate verify f c user pass).1 ≡ some user
  unfolding auth_enticate load_passwd
  Authentic-auth_enticate a = ground (arith, a.is_read, a.stored, a.verified)

  -- `flon_auth_enticate` returns a name exactly when it is the user's own and the stored hash of
  -- that user verifies the password; an unknown user fails although a hash is verified.
  pub auth_enticate_iff :
      (name : Text)
      → ((auth_enticate verify f c user pass).1 ≡ some name)
        ↔ ((name ≡ user) × Authentic verify f c user pass)
  auth_enticate_iff name = (auth_enticate-Authentic name, λ p. rw p.0 (Authentic-auth_enticate p.1))
