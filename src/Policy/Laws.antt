-- ===== src/Policy/Laws.antt =====
-- What the policy allows, and the round trip of license names.
use paperbridge.Prelude.{arith, false, refl, true, ◌≡◌, ◌⊎◌, ◌↔◌}
use paperbridge.Text.{Text, to_ascii_lowercase, trim}
use paperbridge.Policy.{
  CorpusAction, License, cache_open_access, cc0, download, evaluate, license_slug, parse_license,
  restricted, seed_redistribute, store_private, unknown, user_owned_private, find_slug, slugs,
}

find_slug-license_slug : (license : License) → find_slug slugs (license_slug license) ≡ license
unfolding find_slug license_slug
find_slug-license_slug cc0 = refl
find_slug-license_slug _ = refl

-- A license's name is read back as that license, between whitespace and in any ASCII case too.
pub parse_license-slug :
    (license : License) (input : Text)
    → to_ascii_lowercase (trim input) ≡ license_slug license
    → parse_license input ≡ license
unfolding parse_license
parse_license-slug license input h = rw h (find_slug-license_slug license)

-- Seeding is the strictest action and local storage the weakest: what may be seeded may be
-- downloaded, what may be downloaded may be cached, and what may be cached may be stored; seeding
-- and downloading are allowed for the same licenses.
pub evaluate_order :
    (license : License)
    → ((evaluate seed_redistribute license).allowed ≡ (evaluate download license).allowed)
      × ((evaluate download license).allowed ≡ true
          → (evaluate cache_open_access license).allowed ≡ true)
      × ((evaluate cache_open_access license).allowed ≡ (evaluate store_private license).allowed)
unfolding evaluate
evaluate_order license = ground arith

-- An action is refused exactly if the file is restricted, or if it is a download or a seeding of a
-- file whose license is unknown or which is the user's own.
pub evaluate_blocks :
    (action : CorpusAction) (license : License)
    → ((evaluate action license).allowed ≡ false) ↔ (
        (license ≡ restricted)
        ⊎ (((action ≡ download) ⊎ (action ≡ seed_redistribute))
            × ((license ≡ unknown) ⊎ (license ≡ user_owned_private))))
unfolding evaluate
evaluate_blocks action license = ground arith
