-- ===== src/Auth/Domain.antt =====
-- What `flon_dom_matches` and `flon_is_subdomain` accept, against independent descriptions.
use flon.Base.{
  ◌≡◌, ◌↔◌, ◌⊎◌, inl, inr, refl, sym, ◌∙◌, arith, true, List, [], ◌∷◌, ◌++◌, Bool-cases,
  Option-cases,
}
use mathlib.Core.List.{append-nil}
use flon.Base.Text.{Text, text_eq, text_eq_iff, strip_prefix, strip_prefix_iff}
use flon.Auth.{
  star, double_star, is_nil, head_or_empty, skip_to, walk, segments_match, ends_segment,
  is_subdomain,
}

-- A domain, as segments, fits a pattern: `*` stands for one segment and `**` for any number.
pub data Matches : List Text → List Text → Type 0 where
  done : Matches [] []
  one : {x p : Text} {d ps : List Text} → p ≡ star → Matches d ps → Matches (x ∷ d) (p ∷ ps)
  zero_more : {p : Text} {d ps : List Text} → p ≡ double_star → Matches d ps → Matches d (p ∷ ps)
  one_more :
      {x p : Text} {d ps : List Text}
      → p ≡ double_star
      → Matches d (p ∷ ps)
      → Matches (x ∷ d) (p ∷ ps)
  same : {x p : Text} {d ps : List Text} → p ≡ x → Matches d ps → Matches (x ∷ d) (p ∷ ps)

Matches-all : (d : List Text) {p : Text} → p ≡ double_star → Matches d (p ∷ [])
Matches-all [] e = zero_more e done
Matches-all (x ∷ d) e = one_more e (Matches-all d e)

-- What fits behind the skipped segments fits behind `**`.
Matches-skip_to :
    (stop : Text) (d : List Text) {p : Text} {ps : List Text}
    → p ≡ double_star
    → Matches (skip_to stop d) ps
    → Matches d (p ∷ ps)
unfolding skip_to
Matches-skip_to stop [] e m = zero_more e m
Matches-skip_to stop (x ∷ []) e m = zero_more e m
Matches-skip_to stop (x ∷ (y ∷ d)) e m = elim (Bool-cases (text_eq x stop)) [
  | inl hit ↦ zero_more e (rw hit at m)
  | inr miss ↦ one_more e (Matches-skip_to stop (y ∷ d) e (rw miss at m))
]

walk-Matches : (d ps : List Text) → walk d ps ≡ true → Matches d ps
unfolding walk
walk-Matches [] [] h = done
walk-Matches (x ∷ d) [] h = cc
walk-Matches [] (p ∷ []) h = Matches-all [] ((text_eq_iff p double_star).0 (ground arith))
walk-Matches [] (p ∷ (q ∷ ps)) h = absurd (ground arith)
walk-Matches (x ∷ d) (p ∷ ps) h = elim (Bool-cases (text_eq p star)) [
  | inl s ↦ one ((text_eq_iff p star).0 s) (walk-Matches d ps (ground arith))
  | inr ns ↦ elim (Bool-cases (text_eq p double_star)) [
    | inl dd ↦ elim (Bool-cases (is_nil ps)) [
      | inl last ↦ walk-last ps last ((text_eq_iff p double_star).0 dd)
      | inr more ↦
          Matches-skip_to (head_or_empty ps) (x ∷ d) ((text_eq_iff p double_star).0 dd)
            (walk-Matches (skip_to (head_or_empty ps) (x ∷ d)) ps (ground arith))
    ]
    | inr nd ↦ same (sym ((text_eq_iff x p).0 (ground arith))) (walk-Matches d ps (ground arith))
  ]
]
  where
    walk-last : (l : List Text) → is_nil l ≡ true → p ≡ double_star → Matches (x ∷ d) (p ∷ l)
    walk-last [] e q = Matches-all (x ∷ d) q
    walk-last (y ∷ l) e q = cc

-- Whatever `flon_dom_matches` accepts fits the pattern.
pub segments_match-Matches : (d p : List Text) → segments_match d p ≡ true → Matches d p
unfolding segments_match
segments_match-Matches d [] h = cc
segments_match-Matches d (p ∷ ps) h = walk-Matches d (p ∷ ps) h

-- `**` stands at the end of the pattern or nowhere.
abbrev pub IsTrailing : List Text → Type 0
IsTrailing [] = Unit
IsTrailing (p ∷ ps) = (p ≡ double_star → ps ≡ []) × IsTrailing ps

walk-double_star :
    (d : List Text) (p : Text) (ps : List Text) → p ≡ double_star → ps ≡ [] → walk d (p ∷ ps) ≡ true
unfolding walk text_eq
walk-double_star [] p ps e n = rw (e, n) refl
walk-double_star (x ∷ d) p ps e n = rw (e, n) refl

Matches-walk : {d ps : List Text} → IsTrailing ps → Matches d ps → walk d ps ≡ true
unfolding walk
Matches-walk t done = refl
Matches-walk t (one {p} e m) = ground (arith, (text_eq_iff p star).1 e, Matches-walk t.1 m)
Matches-walk t (zero_more {p} {d} {ps} e m) = walk-double_star d p ps e (t.0 e)
Matches-walk t (one_more {x} {p} {d} {ps} e m) = walk-double_star (x ∷ d) p ps e (t.0 e)
Matches-walk t (same {x} {p} {d} {ps} e m) = elim (Bool-cases (text_eq p double_star)) [
  | inl dd ↦ let q = (text_eq_iff p double_star).0 dd in walk-double_star (x ∷ d) p ps q (t.0 q)
  | inr nd ↦ ground (arith, (text_eq_iff x p).1 (sym e), Matches-walk t.1 m)
]

-- A pattern that is not empty and has `**` at its end at most accepts exactly the domains that
-- fit it.
pub segments_match_iff_Matches :
    (d : List Text) (p : Text) (ps : List Text)
    → IsTrailing (p ∷ ps)
    → (segments_match d (p ∷ ps) ≡ true) ↔ Matches d (p ∷ ps)
unfolding segments_match
segments_match_iff_Matches d p ps t = (segments_match-Matches d (p ∷ ps), Matches-walk t)

ends_segment-cases : (r : Text) → ends_segment r ≡ true → (r ≡ []) ⊎ ((t : Text) × (r ≡ b'.' ∷ t))
unfolding ends_segment
ends_segment-cases [] h = inl refl
ends_segment-cases (c ∷ r) h = inr (r, ground arith)

is_subdomain-continues :
    (root dom r : Text) → dom ≡ root ++ r → ends_segment r ≡ true → is_subdomain root dom ≡ true
unfolding is_subdomain
is_subdomain-continues root dom r e h = ground (arith, (strip_prefix_iff root dom r).1 e)

is_subdomain-split :
    (root dom : Text)
    → is_subdomain root dom ≡ true
    → (r : Text) × (dom ≡ root ++ r) × (ends_segment r ≡ true)
unfolding is_subdomain
is_subdomain-split root dom h = elim (Option-cases (strip_prefix root dom)) [
  | inl e ↦ absurd (ground arith)
  | inr (r, e) ↦ (r, (strip_prefix_iff root dom r).0 e, ground arith)
]

-- `flon_is_subdomain` accepts the root itself and what continues it behind a dot, and nothing
-- else.
pub is_subdomain_iff :
    (root dom : Text)
    → (is_subdomain root dom ≡ true) ↔ ((dom ≡ root) ⊎ ((r : Text) × (dom ≡ root ++ (b'.' ∷ r))))
unfolding ends_segment
is_subdomain_iff root dom = (
  λ h.
      let (r, e, k) = is_subdomain-split root dom h in
      elim (ends_segment-cases r k) [
        | inl n ↦ inl (e ∙ rw n (append-nil root))
        | inr (t, n) ↦ inr (t, e ∙ rw n)
      ],
  λ d. elim d [
    | inl e ↦ is_subdomain-continues root dom [] (e ∙ sym (append-nil root)) refl
    | inr (t, e) ↦ is_subdomain-continues root dom (b'.' ∷ t) e refl
  ],
)
