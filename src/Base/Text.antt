-- ===== src/Base/Text.antt =====
-- C strings as lists of bytes, and the string functions of the C library that the sources call.
use Prim.Native.Char.{code}
use flon.Base.{
  ℕ, String, ◌≡◌, ◌↔◌, refl, arith, Bool, true, false, ◌&&◌, Option, none, some, List, [], ◌∷◌,
  ◌++◌, ◌==◌, if◌then◌else◌, Option-cases, inl, inr,
}

abbrev pub Text : Type 0
Text = List ℕ

-- The bytes of a literal, which is ASCII.
abbrev pub codes : String → Text
codes String.[] = []
codes (String.◌∷◌ c s) = code c ∷ codes s

-- `strcmp(a, b) == 0`
unfoldable pub text_eq : Text → Text → Bool
text_eq [] [] = true
text_eq (x ∷ xs) (y ∷ ys) = x == y && text_eq xs ys
text_eq _ _ = false

pub text_eq_iff : (a b : Text) → (text_eq a b ≡ true) ↔ (a ≡ b)
unfolding text_eq
text_eq_iff [] [] = ground arith
text_eq_iff (x ∷ xs) (y ∷ ys) = ground (arith, text_eq_iff xs ys)
text_eq_iff [] (y ∷ ys) = ground arith
text_eq_iff (x ∷ xs) [] = ground arith

pub text_eq_refl : (a : Text) → text_eq a a ≡ true
text_eq_refl a = (text_eq_iff a a).1 refl

-- `strncmp(a, p, strlen(p)) == 0`, and what stands behind the prefix
unfoldable pub strip_prefix : Text → Text → Option Text
strip_prefix [] t = some t
strip_prefix (x ∷ p) [] = none
strip_prefix (x ∷ p) (y ∷ t) = let rest = strip_prefix p t in if x == y then rest else none

pub strip_prefix_iff : (p t r : Text) → (strip_prefix p t ≡ some r) ↔ (t ≡ p ++ r)
unfolding strip_prefix
strip_prefix_iff [] t r = ground arith
strip_prefix_iff (x ∷ p) [] r = ground arith
strip_prefix_iff (x ∷ p) (y ∷ t) r = ground (arith, strip_prefix_iff p t r)

unfoldable pub has_prefix : Text → Text → Bool
unfolding strip_prefix
has_prefix p t = elim (strip_prefix p t) [ none ↦ false | some _ ↦ true ]

pub has_prefix-append : (p r : Text) → has_prefix p (p ++ r) ≡ true
unfolding has_prefix
has_prefix-append p r = ground (arith, (strip_prefix_iff p (p ++ r) r).1 refl)

pub has_prefix_iff : (p t : Text) → (has_prefix p t ≡ true) ↔ ((r : Text) × (t ≡ p ++ r))
unfolding has_prefix
has_prefix_iff p t = elim (Option-cases (strip_prefix p t)) [
  | inl e ↦ (
    (λ h. absurd (ground (arith, e))),
    λ (r, q). absurd (let k = (strip_prefix_iff p t r).1 q in cc),
  )
  | inr (r, e) ↦ ((λ h. (r, (strip_prefix_iff p t r).0 e)), λ k. ground (arith, e))
]

-- What stands before the first `c`, if there is one: `strndup(s, strchr(s, c) - s)`.
unfoldable pub before : ℕ → Text → Option Text
before c [] = none
before c (x ∷ s) =
    let rest = before c s in
    if x == c then some [] else elim rest [ none ↦ none | some r ↦ some (x ∷ r) ]

-- What stands behind the first `c`: `strchr(s, c) + 1`.
unfoldable pub after : ℕ → Text → Option Text
after c [] = none
after c (x ∷ s) = let rest = after c s in if x == c then some s else rest

-- `strchr(s, c) != NULL`
unfoldable pub has_byte : ℕ → Text → Bool
has_byte c [] = false
has_byte c (x ∷ s) = let rest = has_byte c s in if x == c then true else rest

-- Both sides of the last `c`, by `strrchr(s, c)`.
unfoldable pub split_last : ℕ → Text → Option (Text × Text)
split_last c [] = none
split_last c (x ∷ s) =
    let rest = split_last c s in
    elim rest [ some (a, b) ↦ some (x ∷ a, b) | none ↦ if x == c then some ([], s) else none ]

module _ (c : ℕ) where
  pub before_iff_none : (s : Text) → (before c s ≡ none) ↔ (has_byte c s ≡ false)
  unfolding before has_byte
  before_iff_none [] = ground arith
  before_iff_none (x ∷ s) = ground (arith, before_iff_none s)

  pub before-append : (a b : Text) → has_byte c a ≡ false → before c (a ++ c ∷ b) ≡ some a
  unfolding before has_byte
  before-append [] b h = ground arith
  before-append (x ∷ a) b h = ground (arith, before-append a b)

  pub after-append : (a b : Text) → has_byte c a ≡ false → after c (a ++ c ∷ b) ≡ some b
  unfolding after has_byte
  after-append [] b h = ground arith
  after-append (x ∷ a) b h = ground (arith, after-append a b)

  pub has_byte-append :
      (a b : Text) → has_byte c (a ++ b) ≡ (if has_byte c a then true else has_byte c b)
  unfolding has_byte
  has_byte-append [] b = refl
  has_byte-append (x ∷ a) b = ground (arith, has_byte-append a b)

  pub split_last-none : (s : Text) → has_byte c s ≡ false → split_last c s ≡ none
  unfolding split_last has_byte
  split_last-none [] h = refl
  split_last-none (x ∷ s) h = ground (arith, split_last-none s)

  pub split_last-append :
      (a b : Text) → has_byte c b ≡ false → split_last c (a ++ c ∷ b) ≡ some (a, b)
  unfolding split_last has_byte
  split_last-append [] b h = ground (arith, split_last-none b h)
  split_last-append (x ∷ a) b h = ground (arith, split_last-append a b h)
