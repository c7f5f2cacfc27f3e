-- ===== src/AwsSigV4.antt =====
-- plugin/awssigv4signer.cpp and .h: the signature of a request to AWS. A QByteArray is a list of bytes.
mod Spaces
mod Order
mod Examples
use plasma_ai_usage_monitor.Prelude.{
  ℕ, zero, suc, Bool, true, false, not, ◌&&◌, ◌||◌, List, [], ◌∷◌, ◌++◌, String, if◌then◌else◌,
  str_eq, ◌==◌, ltb, length,
}
use plasma_ai_usage_monitor.Prelude.Qt.{DateTime}

abbrev pub Bytes : Type 0
Bytes = List ℕ

-- What the signer calls: the conversions of QString, trimmed, toLower and toUpper of QByteArray,
-- QDateTime::toString of a UTC time, and the digests with toHex.
pub record Platform : Type 0 where
  pub to_utf8 : String → Bytes
  pub trimmed : Bytes → Bytes
  pub to_lower : Bytes → Bytes
  pub to_upper : Bytes → Bytes
  pub long_date : DateTime → String
  pub short_date : DateTime → String
  pub sha256 : Bytes → Bytes
  pub hmac : Bytes → Bytes → Bytes
  pub to_hex : Bytes → Bytes

pub record SignedHeaders : Type 0 where
  pub headers : List (Bytes × Bytes)
  pub authorization_header : Bytes
  pub amz_date : Bytes
  pub payload_hash : Bytes

-- The arguments of sign.
pub record Request : Type 0 where
  pub access_key_id : String
  pub secret_access_key : String
  pub session_token : String
  pub region : String
  pub service : String
  pub method : String
  pub canonical_uri : String
  pub canonical_query_string : String
  pub headers : List (Bytes × Bytes)
  pub payload : Bytes
  pub timestamp : DateTime

-- QByteArray::contains("  "), after a space or not.
unfoldable pub has_pair : Bool → Bytes → Bool
has_pair spaced [] = false
has_pair spaced (b ∷ bs) = (spaced && b == 32) || has_pair (b == 32) bs

-- QByteArray::replace("  ", " "), with a space that is read and not yet written or none.
unfoldable pub replace_from : Bool → Bytes → Bytes
replace_from pending [] = if pending then 32 ∷ [] else []
replace_from pending (b ∷ bs) =
    let rest = replace_from (not pending && b == 32) bs in
    if pending
    then (if b == 32 then 32 ∷ rest else 32 ∷ b ∷ rest)
    else (if b == 32 then rest else b ∷ rest)

-- The loop of toLowerTrimmed.
unfoldable pub squeeze : ℕ → Bytes → Bytes
squeeze zero value = value
squeeze (suc fuel) value =
    let rest = squeeze fuel (replace_from false value) in
    if has_pair false value then rest else value

-- QByteArray's operator<.
unfoldable pub precedes : Bytes → Bytes → Bool
precedes a [] = false
precedes [] (b ∷ bs) = true
precedes (a ∷ more) (b ∷ bs) = let rest = precedes more bs in ltb a b || (a == b && rest)

-- std::sort by the names. Names that are alike keep their order here, which std::sort leaves open.
unfoldable pub sort_name : Bytes → List Bytes → List Bytes
sort_name n [] = n ∷ []
sort_name n (o ∷ os) = let rest = sort_name n os in if precedes o n then o ∷ rest else n ∷ o ∷ os

unfoldable pub sorted_names : List Bytes → List Bytes
sorted_names [] = []
sorted_names (n ∷ ns) = sort_name n (sorted_names ns)

unfoldable pub sort_header : Bytes × Bytes → List (Bytes × Bytes) → List (Bytes × Bytes)
sort_header h [] = h ∷ []
sort_header h (g ∷ gs) =
    let rest = sort_header h gs in if precedes g.0 h.0 then g ∷ rest else h ∷ g ∷ gs

unfoldable pub sorted_headers : List (Bytes × Bytes) → List (Bytes × Bytes)
sorted_headers [] = []
sorted_headers (h ∷ hs) = sort_header h (sorted_headers hs)

unfoldable pub names_of : List (Bytes × Bytes) → List Bytes
names_of [] = []
names_of (h ∷ hs) = h.0 ∷ names_of hs

module _ (p : Platform) where
  open p use {to_utf8, trimmed, to_lower, to_upper, long_date, short_date, sha256, hmac, to_hex}

  -- `toLowerTrimmed`
  unfoldable pub to_lower_trimmed : Bytes → Bytes
  to_lower_trimmed value =
      let normalized = to_lower (trimmed value) in squeeze (length normalized) normalized

  unfoldable pub lower_all : List (Bytes × Bytes) → List (Bytes × Bytes)
  lower_all [] = []
  lower_all (h ∷ hs) = (to_lower_trimmed h.0, to_lower_trimmed h.1) ∷ lower_all hs

  -- The headers of `normalizedHeaders`, before they are sorted.
  abbrev pub gathered_headers : List (Bytes × Bytes) → Bytes → Bytes → String → List (Bytes × Bytes)
  gathered_headers headers amz_date payload_hash session_token =
      lower_all headers
      ++ (to_utf8 "x-amz-date", amz_date)
        ∷ (to_utf8 "x-amz-content-sha256", payload_hash)
        ∷ (if str_eq session_token ""
            then []
            else (to_utf8 "x-amz-security-token", to_utf8 session_token) ∷ [])

  -- `normalizedHeaders`
  unfoldable pub normalized_headers :
      List (Bytes × Bytes) → Bytes → Bytes → String → List (Bytes × Bytes)
  normalized_headers headers amz_date payload_hash session_token =
      sorted_headers (gathered_headers headers amz_date payload_hash session_token)

  unfoldable pub sha256_hex : Bytes → Bytes
  sha256_hex bytes = to_hex (sha256 bytes)

  unfoldable pub signing_key : String → String → String → String → Bytes
  signing_key secret date region service =
      let date_key = hmac (to_utf8 "AWS4" ++ to_utf8 secret) (to_utf8 date) in
      let region_key = hmac date_key (to_utf8 region) in
      hmac (hmac region_key (to_utf8 service)) (to_utf8 "aws4_request")

  unfoldable pub canonical_headers : List (Bytes × Bytes) → Bytes
  canonical_headers [] = []
  canonical_headers (h ∷ hs) = h.0 ++ to_utf8 ":" ++ h.1 ++ to_utf8 "\n" ++ canonical_headers hs

  -- QList::join(";")
  unfoldable pub join_names : List Bytes → Bytes
  join_names [] = []
  join_names (n ∷ []) = n
  join_names (n ∷ o ∷ os) = n ++ to_utf8 ";" ++ join_names (o ∷ os)

  abbrev pub canonical_request : Request → List (Bytes × Bytes) → Bytes → Bytes → Bytes
  canonical_request r normalized names payload_hash =
      to_upper (to_utf8 r.method)
      ++ to_utf8 "\n"
      ++ to_utf8 r.canonical_uri
      ++ to_utf8 "\n"
      ++ to_utf8 r.canonical_query_string
      ++ to_utf8 "\n"
      ++ canonical_headers normalized
      ++ to_utf8 "\n"
      ++ names
      ++ to_utf8 "\n"
      ++ payload_hash

  abbrev pub scope_of : Request → Bytes
  scope_of r =
      to_utf8 (short_date r.timestamp)
      ++ to_utf8 "/"
      ++ to_utf8 r.region
      ++ to_utf8 "/"
      ++ to_utf8 r.service
      ++ to_utf8 "/aws4_request"

  abbrev pub string_to_sign : Request → Bytes → Bytes
  string_to_sign r canonical =
      to_utf8 "AWS4-HMAC-SHA256\n"
      ++ to_utf8 (long_date r.timestamp)
      ++ to_utf8 "\n"
      ++ scope_of r
      ++ to_utf8 "\n"
      ++ sha256_hex canonical

  -- `AwsSigV4Signer::sign`
  unfoldable pub sign : Request → SignedHeaders
  sign r =
      let payload_hash = sha256_hex r.payload in
      let amz_date = to_utf8 (long_date r.timestamp) in
      let normalized = normalized_headers r.headers amz_date payload_hash r.session_token in
      let names = join_names (sorted_names (names_of normalized)) in
      let key = signing_key r.secret_access_key (short_date r.timestamp) r.region r.service in
      let text = string_to_sign r (canonical_request r normalized names payload_hash) in
      record {
        headers = sorted_headers normalized;
        authorization_header =
            to_utf8 "AWS4-HMAC-SHA256 Credential="
            ++ to_utf8 r.access_key_id
            ++ to_utf8 "/"
            ++ scope_of r
            ++ to_utf8 ", SignedHeaders="
            ++ names
            ++ to_utf8 ", Signature="
            ++ to_hex (hmac key text);
        amz_date = amz_date;
        payload_hash = payload_hash;
      }
