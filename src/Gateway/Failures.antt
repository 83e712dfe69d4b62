-- ===== src/Gateway/Failures.antt =====
-- How a provider's call can fail, and what the gateway makes of it.
use production_rag.Base.{
  all, Result, ok, err, not, ◌&&◌, ℕ, ◌+◌, ◌*◌, Bool, true, false, ◌||◌, Option, none, some, [],
  ◌∷◌, Text, text, Unicode, strip, is_empty, eqb, leb, if◌then◌else◌,
}
use production_rag.Permissions.{ValueError, value_error as new_value_error}

-- The exceptions that gateway.py tells apart; `http_error` has the status and the text of the
-- retry-after header.
pub data Failure : Type 0 where
  http_error : ℕ → Option Text → Failure
  url_error timeout_error connection_error other_error : Failure
  value_error : Text → Failure

unfoldable pub is_retryable : Failure → Bool
is_retryable (http_error status header) = eqb status 429 || leb 500 status
is_retryable url_error = true
is_retryable timeout_error = true
is_retryable connection_error = true
is_retryable other_error = false
is_retryable (value_error message) = false

abbrev push_digit : Option ℕ → Option ℕ → Option ℕ
push_digit (some n) (some d) = some (n * 10 + d)
push_digit _ _ = none

-- The number that a text of digits stands for.
unfoldable pub read_digits : Unicode → Option ℕ → Text → Option ℕ
read_digits u n [] = n
read_digits u n (c ∷ s) = read_digits u (push_digit n (u.digit_value c)) s

-- `float` of a text of digits: it reads decimal digits only.
abbrev pub float_of : Option ℕ → Result ValueError (Option ℕ)
float_of none = err (new_value_error (text "could not convert string to float"))
float_of (some n) = ok (some n)

module _ (u : Unicode) (is_digit : ℕ → Bool) where
  -- `value.strip().isdigit()`
  abbrev pub is_digits : Text → Bool
  is_digits t = not (is_empty t) && all is_digit t

  -- `isdigit` also holds of digits, like a superscript two, that `float` does not read.
  abbrev pub header_seconds : Option Text → Result ValueError (Option ℕ)
  header_seconds none = ok none
  header_seconds (some value) =
      if is_digits (strip u.is_space value)
      then float_of (read_digits u (some 0) (strip u.is_space value))
      else ok none

  unfoldable pub retry_after_seconds : Failure → Result ValueError (Option ℕ)
  unfolding read_digits
  retry_after_seconds (http_error status header) = header_seconds header
  retry_after_seconds _ = ok none
