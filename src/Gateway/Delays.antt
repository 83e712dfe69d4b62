-- ===== src/Gateway/Delays.antt =====
-- When a provider's retry-after header makes `retry_after_seconds` raise.
use production_rag.Base.{
  ℕ, ◌+◌, ◌*◌, Bool, true, not, ◌||◌, ◌≡◌, refl, inl, inr, Option, none, some, List, [], ◌∷◌, arith,
  Text, Unicode, Result, ok, err, In, all, strip, eqb, Bool-cases,
}
use production_rag.Permissions.{ValueError}
use production_rag.Gateway.Failures.{
  Failure, http_error, url_error, timeout_error, connection_error, other_error, value_error,
  float_of, is_retryable, read_digits, is_digits, header_seconds, retry_after_seconds,
}
use production_rag.Gateway.Attempts.{
  Environment, Settings, Machine, Prompt, pause_or_raise, after_failure,
}

all-In : (p : ℕ → Bool) (xs : List ℕ) (x : ℕ) → all p xs ≡ true → In x xs → p x ≡ true
all-In p [] x h i = absurd i
all-In p (y ∷ ys) x h (inl e) = let here : p y ≡ true = ground arith in rw e here
all-In p (y ∷ ys) x h (inr i) = let later : all p ys ≡ true = ground arith in all-In p ys x later i

-- A text of digits one of which is no decimal digit, though `isdigit` holds of it, like a
-- superscript two.
abbrev pub HasOddDigit : Unicode → (ℕ → Bool) → Text → Type 0
HasOddDigit u is_digit value =
    (c : ℕ) × In c (strip u.is_space value) × (is_digit c ≡ true) × (u.digit_value c ≡ none)

module _ (u : Unicode) (is_digit : ℕ → Bool) where
  unread :
      (n : ℕ) (s : Text)
      → read_digits u (some n) s ≡ none
      → (c : ℕ) × In c s × (u.digit_value c ≡ none)
  unfolding read_digits
  unread n [] h = cc h
  unread n (c ∷ s) h = cases (u.digit_value c) refl (λ d k. unread (n * 10 + d) s k)
    where
      cases :
          (o : Option ℕ)
          → u.digit_value c ≡ o
          → ((d : ℕ)
              → read_digits u (some (n * 10 + d)) s ≡ none
              → (k : ℕ) × In k s × (u.digit_value k ≡ none))
          → (k : ℕ) × In k (c ∷ s) × (u.digit_value k ≡ none)
      cases none q later = (c, inl refl, q)
      cases (some d) q later = let (k, i, r) = later d (rw q at h) in (k, inr i, r)

  header_seconds-raises :
      (value : Text) (e : ValueError)
      → header_seconds u is_digit (some value) ≡ err e
      → HasOddDigit u is_digit value
  header_seconds-raises value e h =
      elim (Bool-cases (is_digits u is_digit (strip u.is_space value))) [
        | inl digits ↦
            cases digits (read_digits u (some 0) (strip u.is_space value)) refl (rw digits at h)
        | inr others ↦ cc (rw others at h)
      ]
    where
      cases :
          is_digits u is_digit (strip u.is_space value) ≡ true
          → (o : Option ℕ) → read_digits u (some 0) (strip u.is_space value) ≡ o
          → float_of o ≡ err e
          → HasOddDigit u is_digit value
      cases digits none q k =
          let (c, i, r) = unread 0 (strip u.is_space value) q in
          let each : all is_digit (strip u.is_space value) ≡ true = ground arith in
          (c, i, all-In is_digit (strip u.is_space value) c each i, r)
      cases digits (some n) q k = cc k

  retry_after_seconds-raises :
      (exc : Failure) (e : ValueError)
      → retry_after_seconds u is_digit exc ≡ err e
      → (status : ℕ) × (value : Text) × (exc ≡ http_error status (some value))
        × HasOddDigit u is_digit value
  unfolding retry_after_seconds
  retry_after_seconds-raises (http_error status none) e h = cc h
  retry_after_seconds-raises (http_error status (some value)) e h =
      (status, value, refl, header_seconds-raises value e h)
  retry_after_seconds-raises url_error e h = cc h
  retry_after_seconds-raises timeout_error e h = cc h
  retry_after_seconds-raises connection_error e h = cc h
  retry_after_seconds-raises other_error e h = cc h
  retry_after_seconds-raises (value_error m) e h = cc h

module _ {W : Type 0} (env : Environment W) (u : Unicode) (settings : Settings) where
  -- A provider answers the prompt with an HTTP error and such a header.
  abbrev pub AsksOddly : Text → Prompt → Type 0
  AsksOddly name prompt =
      (w : W) × (status : ℕ) × (value : Text) × ((env.ask name prompt w).0
        ≡ err (http_error status (some value)))
      × HasOddDigit u env.is_digit value

  pub after_failure-raises :
      (deadline left attempt : ℕ) (exc : Failure) (m : Machine W) (e : ValueError)
      → (after_failure env u settings deadline left attempt exc m).0 ≡ err e
      → (status : ℕ) × (value : Text) × (exc ≡ http_error status (some value))
        × HasOddDigit u env.is_digit value
  unfolding after_failure pause_or_raise
  after_failure-raises deadline left attempt exc m e h =
      elim (Bool-cases (not (is_retryable exc) || eqb left 0)) [
        | inl stop ↦ cc (rw stop at h)
        | inr go ↦ cases (retry_after_seconds u env.is_digit exc) refl (rw go at h)
      ]
    where
      cases :
          (r : Result ValueError (Option ℕ))
          → retry_after_seconds u env.is_digit exc ≡ r
          → (pause_or_raise env u settings deadline attempt r m).0 ≡ err e
          → (status : ℕ) × (value : Text) × (exc ≡ http_error status (some value))
            × HasOddDigit u env.is_digit value
      cases (ok o) q k = cc k
      cases (err x) q k = retry_after_seconds-raises u env.is_digit exc x q
