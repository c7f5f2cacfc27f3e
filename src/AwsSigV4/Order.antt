-- ===== src/AwsSigV4/Order.antt =====
-- The order of the headers in plugin/awssigv4signer.cpp.
use mathlib.Core.Path.{ap₂}
use plasma_ai_usage_monitor.Prelude.{
  ◌≡◌, refl, ap, ◌∙◌, sym, subst, true, false, List, [], ◌∷◌, arith, Bool-cases, inl, inr, All,
  ◌==◌, ==_iff, ◌++◌,
}
use plasma_ai_usage_monitor.AwsSigV4.{
  Bytes, Platform, Request, precedes, sort_name, sorted_names, sort_header, sorted_headers,
  names_of, gathered_headers, normalized_headers, sha256_hex, signing_key, join_names,
  canonical_request, scope_of, string_to_sign, sign,
}

-- No name precedes the one before it.
abbrev pub IsOrdered : List Bytes → Type 0
IsOrdered [] = Unit
IsOrdered (n ∷ []) = Unit
IsOrdered (n ∷ o ∷ os) = (precedes o n ≡ false) × IsOrdered (o ∷ os)

precedes_asym : (a b : Bytes) → precedes a b ≡ true → precedes b a ≡ false
unfolding precedes
precedes_asym [] [] h = cc
precedes_asym [] (b ∷ bs) h = refl
precedes_asym (a ∷ more) [] h = cc
precedes_asym (a ∷ more) (b ∷ bs) h = ground (arith, precedes_asym more bs)

insert-IsOrdered :
    (n o : Bytes) (os : List Bytes)
    → precedes n o ≡ false
    → IsOrdered (o ∷ os)
    → IsOrdered (o ∷ sort_name n os)
unfolding sort_name
insert-IsOrdered n o [] h ordered = (h, tt)
insert-IsOrdered n o (p ∷ os) h (first, rest) = elim (Bool-cases (precedes p n)) [
  | inl before ↦ rw before (first, insert-IsOrdered n p os (precedes_asym p n before) rest)
  | inr after ↦ rw after (h, (after, rest))
]

sort_name-IsOrdered : (n : Bytes) (ns : List Bytes) → IsOrdered ns → IsOrdered (sort_name n ns)
unfolding sort_name
sort_name-IsOrdered n [] ordered = tt
sort_name-IsOrdered n (o ∷ os) ordered = elim (Bool-cases (precedes o n)) [
  | inl before ↦ rw before (insert-IsOrdered n o os (precedes_asym o n before) ordered)
  | inr after ↦ rw after (after, ordered)
]

sorted_names-IsOrdered : (ns : List Bytes) → IsOrdered (sorted_names ns)
unfolding sorted_names
sorted_names-IsOrdered [] = tt
sorted_names-IsOrdered (n ∷ ns) =
    sort_name-IsOrdered n (sorted_names ns) (sorted_names-IsOrdered ns)

names_of-sort_header :
    (h : Bytes × Bytes) (hs : List (Bytes × Bytes))
    → names_of (sort_header h hs) ≡ sort_name h.0 (names_of hs)
unfolding names_of sort_header sort_name
names_of-sort_header h [] = refl
names_of-sort_header h (g ∷ gs) = elim (Bool-cases (precedes g.0 h.0)) [
  | inl before ↦ rw before (ap (λ ns. g.0 ∷ ns) (names_of-sort_header h gs))
  | inr after ↦ rw after refl
]

names_of-sorted_headers :
    (hs : List (Bytes × Bytes)) → names_of (sorted_headers hs) ≡ sorted_names (names_of hs)
unfolding names_of sorted_headers sorted_names
names_of-sorted_headers [] = refl
names_of-sorted_headers (h ∷ hs) =
    names_of-sort_header h (sorted_headers hs) ∙ ap (sort_name h.0) (names_of-sorted_headers hs)

sorted_names_id : (ns : List Bytes) → IsOrdered ns → sorted_names ns ≡ ns
unfolding sorted_names sort_name
sorted_names_id [] ordered = refl
sorted_names_id (n ∷ []) ordered = refl
sorted_names_id (n ∷ o ∷ os) (first, rest) = rw (sorted_names_id (o ∷ os) rest) (rw first refl)

sorted_headers_id : (hs : List (Bytes × Bytes)) → IsOrdered (names_of hs) → sorted_headers hs ≡ hs
unfolding sorted_headers sort_header names_of
sorted_headers_id [] ordered = refl
sorted_headers_id (h ∷ []) ordered = refl
sorted_headers_id (h ∷ g ∷ gs) (first, rest) = rw (sorted_headers_id (g ∷ gs) rest) (rw first refl)

sorted_headers-IsOrdered : (hs : List (Bytes × Bytes)) → IsOrdered (names_of (sorted_headers hs))
sorted_headers-IsOrdered hs =
    subst IsOrdered (sym (names_of-sorted_headers hs)) (sorted_names-IsOrdered (names_of hs))

-- No two names are alike.
abbrev pub IsApart : List Bytes → Type 0
IsApart [] = Unit
IsApart (n ∷ ns) = All (λ o. n ≡ o → ⊥) ns × IsApart ns

-- Each name precedes the next.
abbrev pub IsRising : List Bytes → Type 0
IsRising [] = Unit
IsRising (n ∷ []) = Unit
IsRising (n ∷ o ∷ os) = (precedes n o ≡ true) × IsRising (o ∷ os)

precedes_total : (a b : Bytes) → (a ≡ b → ⊥) → precedes b a ≡ false → precedes a b ≡ true
unfolding precedes
precedes_total [] [] apart h = absurd (apart refl)
precedes_total [] (b ∷ bs) apart h = refl
precedes_total (a ∷ more) [] apart h = cc
precedes_total (a ∷ more) (b ∷ bs) apart h = elim (Bool-cases (a == b)) [
  | inl same ↦
      let e : a ≡ b = (==_iff a b).0 same in
      ground (arith, precedes_total more bs (λ f. apart (ap₂ ◌∷◌ e f)))
  | inr other ↦ ground arith
]

sort_name-All :
    (P : Bytes → Type 0) (n : Bytes) (ns : List Bytes) → P n → All P ns → All P (sort_name n ns)
unfolding sort_name
sort_name-All P n [] p ps = (p, tt)
sort_name-All P n (o ∷ os) p (q, qs) = elim (Bool-cases (precedes o n)) [
  | inl before ↦ rw before (q, sort_name-All P n os p qs)
  | inr after ↦ rw after (p, (q, qs))
]

sort_name-IsApart :
    (n : Bytes) (ns : List Bytes) → All (λ o. n ≡ o → ⊥) ns → IsApart ns → IsApart (sort_name n ns)
unfolding sort_name
sort_name-IsApart n [] new apart = (tt, tt)
sort_name-IsApart n (o ∷ os) (here, new) (others, apart) = elim (Bool-cases (precedes o n)) [
  | inl before ↦ rw before (
    sort_name-All (λ x. o ≡ x → ⊥) n os (λ e. here (sym e)) others,
    sort_name-IsApart n os new apart,
  )
  | inr after ↦ rw after ((here, new), (others, apart))
]

sorted_names-All : (P : Bytes → Type 0) (ns : List Bytes) → All P ns → All P (sorted_names ns)
unfolding sorted_names
sorted_names-All P [] ps = tt
sorted_names-All P (n ∷ ns) (p, ps) =
    sort_name-All P n (sorted_names ns) p (sorted_names-All P ns ps)

sorted_names-IsApart : (ns : List Bytes) → IsApart ns → IsApart (sorted_names ns)
unfolding sorted_names
sorted_names-IsApart [] apart = tt
sorted_names-IsApart (n ∷ ns) (new, apart) =
    sort_name-IsApart n (sorted_names ns) (sorted_names-All (λ o. n ≡ o → ⊥) ns new)
      (sorted_names-IsApart ns apart)

ordered-IsRising : (ns : List Bytes) → IsOrdered ns → IsApart ns → IsRising ns
ordered-IsRising [] ordered apart = tt
ordered-IsRising (n ∷ []) ordered apart = tt
ordered-IsRising (n ∷ o ∷ os) (first, rest) ((differ, more), apart) =
    (precedes_total n o differ first, ordered-IsRising (o ∷ os) rest apart)

sorted_headers-IsRising :
    (hs : List (Bytes × Bytes)) → IsApart (names_of hs) → IsRising (names_of (sorted_headers hs))
sorted_headers-IsRising hs apart =
    ordered-IsRising (names_of (sorted_headers hs)) (sorted_headers-IsOrdered hs)
      (subst IsApart (sym (names_of-sorted_headers hs)) (sorted_names-IsApart (names_of hs) apart))

module _ (p : Platform) (r : Request) where
  open p use {to_utf8, to_hex, hmac, long_date, short_date}

  abbrev pub gathered : List (Bytes × Bytes)
  gathered =
      gathered_headers p r.headers (to_utf8 (long_date r.timestamp)) (sha256_hex p r.payload)
        r.session_token

  abbrev pub canonical : List (Bytes × Bytes)
  canonical =
      normalized_headers p r.headers (to_utf8 (long_date r.timestamp)) (sha256_hex p r.payload)
        r.session_token

  -- The signature with the headers in their order, whose names are listed in the same order.
  abbrev pub authorization : Bytes
  authorization =
      let names = join_names p (names_of canonical) in
      let key = signing_key p r.secret_access_key (short_date r.timestamp) r.region r.service in
      let request = canonical_request p r canonical names (sha256_hex p r.payload) in
      to_utf8 "AWS4-HMAC-SHA256 Credential="
      ++ to_utf8 r.access_key_id
      ++ to_utf8 "/"
      ++ scope_of p r
      ++ to_utf8 ", SignedHeaders="
      ++ names
      ++ to_utf8 ", Signature="
      ++ to_hex (hmac key (string_to_sign p r request))

  -- Where no two of the gathered headers have the same name, the names of the normalised headers
  -- rise strictly, the signature returns the headers in that order, and the authorization lists the
  -- names in it and signs the canonical request in it, so that sorting again changes neither.
  pub sign-canonical :
      IsApart (names_of gathered)
      → IsRising (names_of canonical)
        × ((sign p r).headers ≡ canonical)
        × ((sign p r).authorization_header ≡ authorization)
  unfolding normalized_headers sign
  sign-canonical apart =
      let ordered = sorted_headers-IsOrdered gathered in
      (
        sorted_headers-IsRising gathered apart,
        sorted_headers_id (sorted_headers gathered) ordered,
        rw (sorted_names_id (names_of (sorted_headers gathered)) ordered) refl,
      )
