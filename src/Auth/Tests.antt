-- ===== src/Auth/Tests.antt =====
-- Runs of src/fl_lis_auth.c on the inputs of its specs, and instances of the theorems.
use flon.Base.{◌≡◌, ◌⊎◌, ◌++◌, ◌↔◌, refl, true, false, none, some, List, [], ◌∷◌, if◌then◌else◌}
use flon.Base.Text.{Text, codes, text_eq, before, has_byte}
use flon.Auth.{
  segments_match, is_subdomain, dom_matches, may_in, domain_part, Cache, Files, load_domain, may,
  auth_enticate,
}
use flon.Auth.Domain.{Matches, segments_match-Matches, segments_match_iff_Matches, is_subdomain_iff}
use flon.Auth.Rights.{Grants, HasEntries, may_iff_Grants, Authentic, auth_enticate_iff}

abbrev org_exa_a_b : List Text
org_exa_a_b = codes "org" ∷ codes "exa" ∷ codes "a" ∷ codes "b" ∷ []

abbrev any_b : List Text
any_b = codes "org" ∷ codes "exa" ∷ codes "**" ∷ codes "b" ∷ []

abbrev under_org : List Text
under_org = codes "org" ∷ codes "*" ∷ codes "**" ∷ []

accepts : segments_match org_exa_a_b any_b ≡ true
unfolding segments_match text_eq
accepts = refl

refuses :
    segments_match org_exa_a_b (codes "org" ∷ codes "exa" ∷ codes "**" ∷ codes "c" ∷ []) ≡ false
unfolding segments_match text_eq
refuses = refl

-- One segment to each byte, for the instances below.
abbrev split_dots : Text → List Text
split_dots [] = []
split_dots (x ∷ s) = (x ∷ []) ∷ split_dots s

abbrev one_user : Files
one_user = record {
  passwd_json =
      some
        (λ u. if text_eq u (codes "john") then some (record { pass = some (codes "h") }) else none);
  domain_json =
      some (λ u. if text_eq u (codes "john") then some ((codes "a*", codes "rw") ∷ []) else none);
}

abbrev cold : Cache
cold = record { passwd = none; domain = none }

segments_match-Matches_example : Matches org_exa_a_b any_b
segments_match-Matches_example = segments_match-Matches org_exa_a_b any_b accepts

segments_match_iff_Matches_example :
    (segments_match org_exa_a_b under_org ≡ true) ↔ Matches org_exa_a_b under_org
segments_match_iff_Matches_example =
    segments_match_iff_Matches org_exa_a_b (codes "org") (codes "*" ∷ codes "**" ∷ [])
      (λ e. cc, (λ e. cc, (λ e. refl, tt)))

is_subdomain_iff_example : (is_subdomain (codes "org") (codes "org.exa") ≡ true) ↔ (
    (codes "org.exa" ≡ codes "org") ⊎ ((r : Text) × (codes "org.exa" ≡ codes "org" ++ (b'.' ∷ r))))
is_subdomain_iff_example = is_subdomain_iff (codes "org") (codes "org.exa")

may_iff_Grants_example :
    ((may split_dots one_user cold b'r' (some (codes "john")) (some (codes "ab-x"))).1 ≡ true) ↔ (
      (es : List (Text × Text)) × HasEntries one_user cold (codes "john") es
      × Grants split_dots b'r' (domain_part (codes "ab-x")) es)
may_iff_Grants_example = may_iff_Grants split_dots one_user cold b'r' (codes "john") (codes "ab-x")

may_runs : (may split_dots one_user cold b'r' (some (codes "john")) (some (codes "ab-x"))).1 ≡ true
unfolding may load_domain may_in dom_matches segments_match text_eq domain_part before has_byte
may_runs = refl

auth_enticate_iff_example :
    ((auth_enticate text_eq one_user cold (codes "john") (codes "h")).1 ≡ some (codes "john"))
    ↔ ((codes "john" ≡ codes "john") × Authentic text_eq one_user cold (codes "john") (codes "h"))
auth_enticate_iff_example =
    auth_enticate_iff text_eq one_user cold (codes "john") (codes "h") (codes "john")
