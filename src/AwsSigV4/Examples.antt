-- ===== src/AwsSigV4/Examples.antt =====
-- Tests of plugin/awssigv4signer.cpp, and the theorems at concrete inputs.
use plasma_ai_usage_monitor.Prelude.{
  ℕ, ◌+◌, ap, arith, ◌≡◌, refl, false, List, [], ◌∷◌, ◌++◌, some, String, str_eq, if◌then◌else◌,
  length,
}
use plasma_ai_usage_monitor.AwsSigV4.{
  Bytes, Platform, Request, sign, has_pair, replace_from, squeeze, precedes, sort_header,
  sorted_headers, names_of, to_lower_trimmed, lower_all, normalized_headers,
}
use plasma_ai_usage_monitor.AwsSigV4.Spaces.{to_lower_trimmed-done}
use plasma_ai_usage_monitor.AwsSigV4.Order.{
  IsApart, IsRising, canonical, gathered, authorization, sign-canonical,
}

-- The names of the headers by two letters of theirs, and any other text by one.
abbrev letters : String → Bytes
letters s =
    if str_eq s "x-amz-date"
    then 120 ∷ 100 ∷ []
    else if str_eq s "x-amz-content-sha256"
    then 120 ∷ 99 ∷ []
    else 97 ∷ []

abbrev short : Platform
short = record {
  to_utf8 = letters;
  trimmed = λ b. b;
  to_lower = λ b. b;
  to_upper = λ b. b;
  long_date = λ t. "date";
  short_date = λ t. "day";
  sha256 = λ b. length b ∷ [];
  hmac = λ key b. key ++ b;
  to_hex = λ b. b;
}

three_spaces : to_lower_trimmed short (97 ∷ 32 ∷ 32 ∷ 32 ∷ 98 ∷ []) ≡ 97 ∷ 32 ∷ 98 ∷ []
unfolding to_lower_trimmed squeeze has_pair replace_from
three_spaces = refl

to_lower_trimmed-done_example :
    has_pair false (to_lower_trimmed short (97 ∷ 32 ∷ 32 ∷ 32 ∷ 98 ∷ [])) ≡ false
to_lower_trimmed-done_example = to_lower_trimmed-done short (97 ∷ 32 ∷ 32 ∷ 32 ∷ 98 ∷ [])

abbrev host : List (Bytes × Bytes)
host = (104 ∷ 111 ∷ [], 98 ∷ []) ∷ (97 ∷ 99 ∷ [], 106 ∷ []) ∷ []

content_before_date :
    names_of (normalized_headers short host (49 ∷ []) (50 ∷ []) "")
    ≡ (97 ∷ 99 ∷ []) ∷ (104 ∷ 111 ∷ []) ∷ (120 ∷ 99 ∷ []) ∷ (120 ∷ 100 ∷ []) ∷ []
unfolding normalized_headers lower_all to_lower_trimmed squeeze has_pair replace_from sorted_headers
    sort_header precedes names_of
content_before_date = refl

abbrev request : Request
request = record {
  access_key_id = "id";
  secret_access_key = "secret";
  session_token = "";
  region = "region";
  service = "bedrock";
  method = "GET";
  canonical_uri = "models";
  canonical_query_string = "";
  headers = host;
  payload = 55 ∷ [];
  timestamp = some 0;
}

abbrev sum : Bytes → ℕ
sum [] = 0
sum (b ∷ bs) = b + sum bs

request-IsApart : IsApart (names_of (gathered short request))
unfolding names_of lower_all to_lower_trimmed squeeze has_pair replace_from
request-IsApart = (
  (
    λ e. let s = ap sum e in omega arith,
    (λ e. let s = ap sum e in omega arith, (λ e. let s = ap sum e in omega arith, tt)),
  ),
  (
    (λ e. let s = ap sum e in omega arith, (λ e. let s = ap sum e in omega arith, tt)),
    ((λ e. let s = ap sum e in omega arith, tt), (tt, tt)),
  ),
)

sign-canonical_example :
    IsRising (names_of (canonical short request))
    × ((sign short request).headers ≡ canonical short request)
    × ((sign short request).authorization_header ≡ authorization short request)
sign-canonical_example = sign-canonical short request request-IsApart
