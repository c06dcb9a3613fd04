-- ===== src/Privacy/Requests/Patterns.antt =====
-- The patterns that an idempotency key must not contain, and `re.search` for them: `_EMAIL_LIKE_PATTERN`
-- and `_UNSAFE_IDEMPOTENCY_PATTERNS` of backend/app/privacy/services/data_subject_requests.py, as
-- regular expressions over ASCII that are matched by derivatives.
use fastapi_saas_template.Prelude.{
  ℕ, zero, suc, Bool, true, false, ◌&&◌, ◌||◌, [], ◌∷◌, Text, codes, leb, ◌==◌, any, is_space,
  if◌then◌else◌, lower_char,
}

pub data Regex : Type 0 where
  never empty : Regex
  class : (ℕ → Bool) → Regex
  seq alt : Regex → Regex → Regex
  star : Regex → Regex

unfoldable pub nullable : Regex → Bool
nullable never = false
nullable empty = true
nullable (class p) = false
nullable (seq a b) = nullable a && nullable b
nullable (alt a b) = nullable a || nullable b
nullable (star a) = true

-- What is left to match after one character.
unfoldable pub derive : ℕ → Regex → Regex
unfolding nullable
derive c never = never
derive c empty = never
derive c (class p) = if p c then empty else never
derive c (seq a b) =
    let head = seq (derive c a) b in
    let tail = derive c b in if nullable a then alt head tail else head
derive c (alt a b) = alt (derive c a) (derive c b)
derive c (star a) = seq (derive c a) (star a)

-- Some prefix of the text matches: `re.match`.
unfoldable pub matches_prefix : Regex → Text → Bool
unfolding derive
matches_prefix r [] = nullable r
matches_prefix r (c ∷ cs) = nullable r || matches_prefix (derive c r) cs

-- `re.search`
unfoldable pub search_in : Regex → Text → Bool
unfolding matches_prefix
search_in r [] = matches_prefix r []
search_in r (c ∷ cs) = matches_prefix r (c ∷ cs) || search_in r cs

abbrev plus : Regex → Regex
plus r = seq r (star r)

-- `r{n,}`
abbrev at_least : ℕ → Regex → Regex
at_least zero r = star r
at_least (suc n) r = seq r (at_least n r)

-- One character, in either case.
abbrev one : ℕ → Regex
one d = class (λ c. lower_char c == lower_char d)

abbrev word : Text → Regex
word [] = empty
word (c ∷ cs) = seq (one c) (word cs)

abbrev is_alphanumeric : ℕ → Bool
is_alphanumeric c =
    (leb b'a' (lower_char c) && leb (lower_char c) b'z') || (leb b'0' c && leb c b'9')

-- The letters, the digits and some more characters.
abbrev letters_and : Text → Regex
letters_and more = class (λ c. is_alphanumeric c || any (λ d. c == d) more)

abbrev spaces : Regex
spaces = class is_space

unfoldable pub email_like : Regex
email_like = seq (plus (letters_and (codes "._%+-"))) (
    seq (one b'@') (
      seq (plus (letters_and (codes ".-"))) (
        seq (one b'.')
          (at_least 2 (class (λ c. leb b'a' (lower_char c) && leb (lower_char c) b'z'))))))

-- `^\s*bearer\s+[…]+` and `^\s*basic\s+[…]+`, which match at the start only.
unfoldable pub credentials : Text → Regex
credentials scheme =
    seq (star spaces) (seq (word scheme) (seq (plus spaces) (plus (letters_and (codes "._-+/=")))))

unfoldable pub secret_assignment : Regex
secret_assignment =
    seq
      (alt
        (seq (word (codes "api"))
          (seq (alt empty (alt (one b'_') (one b'-'))) (word (codes "key"))))
        (alt (word (codes "secret"))
          (alt (word (codes "password")) (alt (word (codes "passwd")) (word (codes "token"))))))
      (seq (star spaces) (alt (one b':') (one b'=')))

abbrev exactly : ℕ → Regex
exactly d = class (λ c. c == d)

-- The one pattern that is compiled without `re.IGNORECASE`.
unfoldable pub json_web_token : Regex
json_web_token =
    let part = plus (letters_and (codes "_-")) in
    seq (exactly b'e') (
      seq (exactly b'y')
        (seq (exactly b'J') (seq part (seq (exactly b'.') (seq part (seq (exactly b'.') part))))))

unfoldable pub github_token : Regex
github_token = seq (word (codes "gh")) (
    seq (class (λ c. any (λ d. lower_char c == d) (codes "pousr")))
      (seq (one b'_') (at_least 20 (class is_alphanumeric))))

-- The loop over `_UNSAFE_IDEMPOTENCY_PATTERNS`.
unfoldable pub looks_like_credentials : Text → Bool
unfolding matches_prefix search_in credentials secret_assignment json_web_token github_token any
looks_like_credentials key =
    (matches_prefix (credentials (codes "bearer")) key
      || matches_prefix (credentials (codes "basic")) key)
    || (search_in secret_assignment key
        || (search_in json_web_token key || search_in github_token key))
