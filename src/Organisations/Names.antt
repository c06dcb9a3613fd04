-- ===== src/Organisations/Names.antt =====
-- `normalize_name` and `normalize_slug` of backend/app/organisations/services/organisations.py.
use fastapi_saas_template.Prelude.{
  ℕ, Bool, true, false, not, ◌&&◌, ◌||◌, ◌≡◌, [], ◌∷◌, ◌==◌, leb, arith, Text, strip, lower,
}
use fastapi_saas_template.Errors.{Result, ok, bad_request, require, ◌>>◌}

abbrev pub is_blank : Text → Bool
is_blank [] = true
is_blank (c ∷ cs) = false

abbrev is_slug_char : ℕ → Bool
is_slug_char c = (leb b'a' c && leb c b'z') || ((leb b'0' c && leb c b'9') || (c == b'-'))

unfoldable all_slug_chars : Text → Bool
all_slug_chars [] = true
all_slug_chars (c ∷ cs) = is_slug_char c && all_slug_chars cs

-- `_SLUG_PATTERN.fullmatch`
unfoldable pub matches_slug : Text → Bool
unfolding all_slug_chars
matches_slug t = not (is_blank t) && all_slug_chars t

unfoldable pub normalize_name : Text → Result Text
normalize_name raw_name = do
  require (not (is_blank (strip raw_name))) (bad_request "Organisation name cannot be blank")
  ok (strip raw_name)

unfoldable pub normalize_slug : Text → Result Text
normalize_slug raw_slug = do
  require (not (is_blank (lower (strip raw_slug))))
      (bad_request "Organisation slug cannot be blank")
  require (matches_slug (lower (strip raw_slug)))
      (bad_request "Organisation slug may contain only lowercase letters, digits, and hyphens")
  ok (lower (strip raw_slug))

pub normalize_name-ok : (raw name : Text) → normalize_name raw ≡ ok name → is_blank name ≡ false
unfolding normalize_name
normalize_name-ok raw name h = ground arith

pub normalize_slug-ok : (raw slug : Text) → normalize_slug raw ≡ ok slug → matches_slug slug ≡ true
unfolding normalize_slug
normalize_slug-ok raw slug h = ground arith
