-- ===== src/Provider/Retry.antt =====
-- ProviderBackend::retryRequest of plugin/providerbackend.cpp: another attempt after a delay, given up
-- when the refresh that it belongs to has been left behind. The jitter is an argument.
use plasma_ai_usage_monitor.Prelude.{
  ℕ, suc, ◌+◌, ◌-◌, ◌*◌, ◌^◌, ◌%◌, ◌≤◌, ◌<◌, ◌≡◌, ◌⊎◌, inl, inr, Bool, true, false, not, ◌&&◌,
  Option, none, some, List, [], ◌∷◌, length, if◌then◌else◌, ltb, is_some, arith, refl, Bool-cases,
  Option-cases,
}
use native.Mathlib.Nat.{pow-le-pow_right}
use plasma_ai_usage_monitor.Prelude.Int.{ℤ, pos, negsuc, pos_part, min_ℤ, max_ℤ}
use plasma_ai_usage_monitor.Prelude.Qt.{DateTime, secs_to}
use plasma_ai_usage_monitor.Provider.{Provider, is_retryable_status}
use plasma_ai_usage_monitor.Provider.Refresh.{is_current_generation, track_reply}
use plasma_ai_usage_monitor.Provider.Errors.{
  Reply, nothing, same_error, Headers, retry_after_for_reply,
}

-- static_cast<int> of a 64-bit number.
unfoldable pub to_int : ℤ → ℤ
to_int (pos n) =
    if ltb (n % 2 ^ 32) (2 ^ 31) then pos (n % 2 ^ 32) else negsuc (2 ^ 32 - n % 2 ^ 32 - 1)
to_int (negsuc n) =
    if ltb (n % 2 ^ 32) (2 ^ 31) then negsuc (n % 2 ^ 32) else pos (2 ^ 32 - n % 2 ^ 32 - 1)

-- qBound(0, seconds, 3600).
bounded : ℤ → ℕ
bounded z = pos_part (min_ℤ (pos 3600) (max_ℤ (pos 0) z))

delay_secs : ℕ → ℕ → DateTime → ℕ
delay_secs now attempt none = 2 ^ attempt
delay_secs now attempt (some at) = bounded (to_int (secs_to now at))

pub delay_ms : Headers → Reply → ℕ → ℕ → ℕ → ℕ
delay_ms h reply now jitter attempt =
    delay_secs now attempt (retry_after_for_reply h (some reply) now) * 1000 + jitter % 500

-- What the timer's closure holds.
pub record Retry : Type 0 where
  pub attempt : ℕ
  pub max_retries : ℕ
  pub generation : ℕ

pub data Outcome : Type 0 where
  called_back : Reply → Outcome
  waits : ℕ → Retry → Outcome
  left : Outcome

pub retry_request : Headers → Reply → ℕ → ℕ → ℕ → ℕ → Provider → Outcome
retry_request h reply now jitter attempt max_retries p =
    if ltb max_retries attempt
    then called_back reply
    else waits (delay_ms h reply now jitter attempt)
        record { attempt = attempt; max_retries = max_retries; generation = p.generation }

-- The timer's closure: a new request, with the number that its reply has.
pub timer_fires : Retry → ℕ → Provider → Option Provider
timer_fires t reply p =
    if is_current_generation t.generation p then some (track_reply reply p) else none

-- The handler of the new request's reply.
pub retry_finished : Headers → Retry → Reply → ℕ → ℕ → Provider → Outcome
retry_finished h t reply now jitter p =
    if not (is_current_generation t.generation p)
    then left
    else if not (same_error reply.error nothing) && is_retryable_status reply.status
    then retry_request h reply now jitter (t.attempt + 1) t.max_retries p
    else called_back reply

-- One round: the provider when the timer fires and when the reply is there, and that reply.
pub record Round : Type 0 where
  pub on_timer : Provider
  pub on_reply : Provider
  pub number : ℕ
  pub reply : Reply
  pub now : ℕ
  pub jitter : ℕ

-- The rounds that follow an outcome, to the end of them or of the retries; with the requests sent.
pub follow : Headers → Outcome → List Round → ℕ × Outcome
follow h o [] = (0, o)
follow h (called_back r) (x ∷ xs) = (0, called_back r)
follow h left (x ∷ xs) = (0, left)
follow h (waits ms t) (x ∷ xs) =
    let rest = follow h (retry_finished h t x.reply x.now x.jitter x.on_reply) xs in
    if is_some (timer_fires t x.number x.on_timer) then (suc rest.0, rest.1) else (0, left)

attempts_left : Outcome → ℕ
attempts_left (called_back r) = 0
attempts_left left = 0
attempts_left (waits ms t) = t.max_retries + 1 - t.attempt

abbrev pub is_over : Outcome → Bool
is_over (waits ms t) = false
is_over _ = true

abbrev pub is_worth : Reply → Bool
is_worth r = not (same_error r.error nothing) && is_retryable_status r.status

-- No timer runs for an attempt beyond the last one.
abbrev IsWaiting : Outcome → Type 0
IsWaiting (waits ms t) = t.attempt ≤ t.max_retries
IsWaiting _ = Unit

-- What is true of the requests sent and of the end, from `n` attempts.
abbrev pub Ends : ℕ → ℕ × Outcome → Type 0
Ends n (sent, o) =
    (is_over o ≡ true)
    × (sent ≤ n)
    × ((r : Reply) → o ≡ called_back r → (is_worth r ≡ false) ⊎ (sent ≡ n))

retry_finished-cases :
    (h : Headers) (t : Retry) (r : Reply) (now jitter : ℕ) (p : Provider)
    → let o = retry_finished h t r now jitter p in
      (o ≡ left)
      ⊎ ((o ≡ called_back r) × (is_worth r ≡ false))
      ⊎ ((o ≡ called_back r) × (t.max_retries < t.attempt + 1))
      ⊎ ((ms : ℕ) × (u : Retry) × (o ≡ waits ms u)
          × (u.attempt ≡ t.attempt + 1)
          × (u.max_retries ≡ t.max_retries)
          × (t.attempt + 1 ≤ t.max_retries))
unfolding retry_finished retry_request
retry_finished-cases h t r now jitter p = elim (Bool-cases (is_current_generation t.generation p)) [
  | inr off ↦ inl (rw off refl)
  | inl on ↦ elim (Bool-cases (is_worth r)) [
    | inr vain ↦ inr (inl (rw (on, vain) refl, vain))
    | inl fit ↦ elim (Bool-cases (ltb t.max_retries (t.attempt + 1))) [
      | inl last ↦ inr (inr (inl (rw (on, fit, last) refl, ground arith)))
      | inr more ↦ inr (
          inr (
            inr (
              delay_ms h r now jitter (t.attempt + 1),
              record {
                attempt = t.attempt + 1;
                max_retries = t.max_retries;
                generation = p.generation;
              },
              rw (on, fit, more) refl,
              refl,
              refl,
              ground arith,
            )))
    ]
  ]
]

follow-called_back :
    (h : Headers) (r : Reply) (xs : List Round) → follow h (called_back r) xs ≡ (0, called_back r)
unfolding follow
follow-called_back h r [] = refl
follow-called_back h r (x ∷ xs) = refl

follow-left : (h : Headers) (xs : List Round) → follow h left xs ≡ (0, left)
unfolding follow
follow-left h [] = refl
follow-left h (x ∷ xs) = refl

follow-Ends :
    (h : Headers) (o : Outcome) (xs : List Round)
    → IsWaiting o
    → attempts_left o ≤ length xs
    → Ends (attempts_left o) (follow h o xs)
unfolding follow attempts_left
follow-Ends h (called_back r) xs v enough =
    rw (follow-called_back h r xs) (refl, omega arith, λ _ _. inr refl)
follow-Ends h left xs v enough = rw (follow-left h xs) (refl, omega arith, λ r e. cc)
follow-Ends h (waits ms t) [] v enough = let none_left : ⊥ = omega arith in elim none_left [ ]
follow-Ends h (waits ms t) (x ∷ xs) v enough =
    elim (Bool-cases (is_some (timer_fires t x.number x.on_timer))) [
      | inr off ↦ rw off (refl, omega arith, λ r e. cc)
      | inl on ↦ rw on (elim (retry_finished-cases h t x.reply x.now x.jitter x.on_reply) [
        | inl gone ↦ rw (gone, follow-left h xs) (refl, omega arith, λ r e. cc)
        | inr (inl (back, vain)) ↦
            rw (back, follow-called_back h x.reply xs) (refl, omega arith, λ r e. inl cc)
        | inr (inr (inl (back, last))) ↦
            rw (back, follow-called_back h x.reply xs) (refl, omega arith, λ r e. inr (omega arith))
        | inr (inr (inr (ms', u, back, a, m, le))) ↦
            let rest = follow-Ends h (waits ms' u) xs (rw (a, m) le) (rw (a, m) (omega arith)) in
            rw back (
              rest.0,
              omega (arith, rest.1),
              λ r e. elim (rest.2 r e) [ inl vain ↦ inl vain | inr all ↦ inr (omega arith) ],
            )
      ])
    ]

-- A series of retries comes to its end within one round for each attempt that is left: it sends at
-- most one request for each of them, and hands a reply over only where that was not worth another
-- attempt, or all of them were used.
pub retry_request-Ends :
    (h : Headers) (first : Reply) (now jitter attempt max_retries : ℕ) (p : Provider)
    (xs : List Round)
    → max_retries + 1 - attempt ≤ length xs
    → Ends
        (max_retries + 1 - attempt)
        (follow h (retry_request h first now jitter attempt max_retries p) xs)
unfolding retry_request attempts_left
retry_request-Ends h first now jitter attempt max_retries p xs enough =
    elim (Bool-cases (ltb max_retries attempt)) [
      | inl over ↦
          rw (over, follow-called_back h first xs) (refl, omega arith, λ r e. inr (ground arith))
      | inr more ↦ rw more (
          follow-Ends h
            (waits (delay_ms h first now jitter attempt)
              record { attempt = attempt; max_retries = max_retries; generation = p.generation })
            xs (ground arith) enough)
    ]

bounded-le : (z : ℤ) → bounded z ≤ 3600
unfolding bounded
bounded-le z = ground arith

-- The delay of one of the first twenty attempts fits in 31 bits, whatever the server asks for.
pub delay_ms_fits :
    (h : Headers) (reply : Reply) (now jitter attempt : ℕ)
    → attempt ≤ 20
    → delay_ms h reply now jitter attempt < 2 ^ 31
unfolding delay_ms delay_secs
delay_ms_fits h reply now jitter attempt small =
    elim (Option-cases (retry_after_for_reply h (some reply) now)) [
      | inl unsaid ↦ rw unsaid (ground (arith, pow-le-pow_right {n = 2} (omega arith) small))
      | inr (at, said) ↦ rw said (omega (arith, bounded-le (to_int (secs_to now at))))
    ]
