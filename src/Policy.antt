-- ===== src/Policy.antt =====
-- crates/paperseed/src/policy.rs, with `License` and `CorpusAction` of crates/paperseed/src/models.rs.
pub mod Laws
use paperbridge.Prelude.{Bool, List, [], false, if◌then◌else◌, not, true, ◌∷◌}
use paperbridge.Text.{Text, codes, eq_text, to_ascii_lowercase, trim}

pub data License : Type 0 where
  cc0 cc_by cc_by_sa public_domain open_government user_owned_private unknown restricted : License

pub data CorpusAction : Type 0 where
  store_private download cache_open_access seed_redistribute : CorpusAction

pub record PolicyDecision : Type 0 where
  pub allowed : Bool
  pub reason : Text

abbrev pub allow : Text → PolicyDecision
allow reason = record { allowed = true; reason = reason }

abbrev pub block : Text → PolicyDecision
block reason = record { allowed = false; reason = reason }

evaluate_store : License → PolicyDecision
evaluate_store restricted =
    block
      (codes "restricted files are not imported without explicit user-owned-private classification")
evaluate_store _ =
    allow (codes "private local storage is allowed for user-provided or open material")

evaluate_download : License → PolicyDecision
evaluate_download user_owned_private =
    block (codes "user-owned-private files must be imported locally, not downloaded by the tool")
evaluate_download unknown =
    block (codes "download requires known open-access or public-domain license")
evaluate_download restricted =
    block (codes "download requires known open-access or public-domain license")
evaluate_download _ = allow (codes "license permits lawful open download")

evaluate_cache : License → PolicyDecision
evaluate_cache restricted = block (codes "restricted files cannot be cached from external sources")
evaluate_cache _ = allow (
    codes
      "open-access resolver location may be cached for private local corpus use; seeding still requires redistribution rights")

evaluate_seed : License → PolicyDecision
evaluate_seed user_owned_private = block (codes "seeding requires explicit redistribution rights")
evaluate_seed unknown = block (codes "seeding requires explicit redistribution rights")
evaluate_seed restricted = block (codes "seeding requires explicit redistribution rights")
evaluate_seed _ = allow (codes "license permits redistribution/seeding")

unfoldable pub evaluate : CorpusAction → License → PolicyDecision
unfolding evaluate_store evaluate_download evaluate_cache evaluate_seed
evaluate store_private license = evaluate_store license
evaluate download license = evaluate_download license
evaluate cache_open_access license = evaluate_cache license
evaluate seed_redistribute license = evaluate_seed license

-- The arms of `match` in `parse_license`, in order.
abbrev pub slugs : List (Text × License)
slugs =
    (codes "cc0", cc0)
    ∷ (codes "cc-zero", cc0)
    ∷ (codes "cc-by", cc_by)
    ∷ (codes "cc by", cc_by)
    ∷ (codes "cc-by-sa", cc_by_sa)
    ∷ (codes "cc by sa", cc_by_sa)
    ∷ (codes "public-domain", public_domain)
    ∷ (codes "public domain", public_domain)
    ∷ (codes "pd", public_domain)
    ∷ (codes "open-government", open_government)
    ∷ (codes "open government", open_government)
    ∷ (codes "user-owned-private", user_owned_private)
    ∷ (codes "private", user_owned_private)
    ∷ (codes "user-owned", user_owned_private)
    ∷ (codes "restricted", restricted)
    ∷ []

find_slug : List (Text × License) → Text → License
find_slug [] input = unknown
find_slug ((slug, license) ∷ rest) input =
    let later = find_slug rest input in if eq_text slug input then license else later

unfoldable pub parse_license : Text → License
unfolding find_slug
parse_license input = find_slug slugs (to_ascii_lowercase (trim input))

unfoldable pub license_slug : License → Text
license_slug cc0 = codes "cc0"
license_slug cc_by = codes "cc-by"
license_slug cc_by_sa = codes "cc-by-sa"
license_slug public_domain = codes "public-domain"
license_slug open_government = codes "open-government"
license_slug user_owned_private = codes "user-owned-private"
license_slug unknown = codes "unknown"
license_slug restricted = codes "restricted"
