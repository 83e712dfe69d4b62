-- ===== src/Gateway/Attempts/Outcome.antt =====
-- What one provider's rounds can do: how often it is called, when there is a pause, and how they end.
use production_rag.Base.{
  Option, ap, ◌∙◌, ℕ, zero, suc, ◌+◌, ◌≤◌, ◌<◌, Bool, true, false, not, ◌||◌, ◌≡◌, refl, ◌⊎◌, inl,
  inr, none, some, List, [], ◌∷◌, ◌++◌, arith, Text, Unicode, Result, ok, err, eqb, Bool-cases,
}
use production_rag.Gateway.Failures.{Failure, is_retryable, retry_after_seconds}
use production_rag.Gateway.Delays.{AsksOddly, after_failure-raises}
use production_rag.Permissions.{ValueError}
use production_rag.Gateway.Attempts.{
  Note, retry_in, failed, Generation, Prompt, Environment, Settings, Happening, asked, paused,
  Machine, Answer, delay_or_jitter, call, pause_or_raise, after_failure, go_on_if, attempt_rounds,
}

-- How many calls a log shows.
abbrev pub calls : List Happening → ℕ
calls [] = 0
calls (asked name ∷ log) = suc (calls log)
calls (paused now delay ∷ log) = calls log

-- Every pause of a log ends before the deadline.
abbrev pub InTime : ℕ → List Happening → Type 0
InTime deadline [] = Unit
InTime deadline (asked name ∷ log) = InTime deadline log
InTime deadline (paused now delay ∷ log) = (now + delay < deadline) × InTime deadline log

pub calls-append : (xs ys : List Happening) → calls (xs ++ ys) ≡ calls xs + calls ys
calls-append [] ys = omega arith
calls-append (asked name ∷ xs) ys = omega (arith, calls-append xs ys)
calls-append (paused now delay ∷ xs) ys = calls-append xs ys

pub InTime-append :
    (deadline : ℕ) (xs ys : List Happening)
    → InTime deadline xs
    → InTime deadline ys
    → InTime deadline (xs ++ ys)
InTime-append deadline [] ys h k = k
InTime-append deadline (asked name ∷ xs) ys h k = InTime-append deadline xs ys h k
InTime-append deadline (paused now delay ∷ xs) ys h k = (h.0, InTime-append deadline xs ys h.1 k)

pub Result-cases :
    {E A : Type 0} (r : Result E A) → ((a : A) × (r ≡ ok a)) ⊎ ((e : E) × (r ≡ err e))
Result-cases (ok a) = inl (a, refl)
Result-cases (err e) = inr (e, refl)

module _ {W : Type 0} (env : Environment W) (u : Unicode) (settings : Settings) where
  -- A log has grown by at most so many calls, and its pauses are in time if they were before.
  pub record Grows (deadline bound : ℕ) (old new : List Happening) : Type 0 where
    pub called : calls new ≤ calls old + bound
    pub in_time : InTime deadline old → InTime deadline new

  retry_in-Grows :
      (deadline delay : ℕ) (m : Machine W)
      → Grows deadline 0 m.log (retry_in env u settings deadline delay m).1.log
  unfolding retry_in
  retry_in-Grows deadline delay m =
      let now = env.clock m.world in
      let more = paused now delay ∷ [] in
      record {
        called = ground (arith, calls-append m.log more);
        in_time = λ h. ground (arith, InTime-append deadline m.log more h);
      }

  pause_or_raise-Grows :
      (deadline attempt : ℕ) (r : Result ValueError (Option ℕ)) (m : Machine W)
      → Grows deadline 0 m.log (pause_or_raise env u settings deadline attempt r m).1.log
  unfolding pause_or_raise
  pause_or_raise-Grows deadline attempt (err e) m = record {
    called = omega arith;
    in_time = λ h. h;
  }
  pause_or_raise-Grows deadline attempt (ok o) m =
      let drawn = delay_or_jitter env u settings attempt o m.world in
      retry_in-Grows deadline drawn.0 (record m { world = drawn.1 })

  after_failure-Grows :
      (deadline left attempt : ℕ) (exc : Failure) (m : Machine W)
      → Grows deadline 0 m.log (after_failure env u settings deadline left attempt exc m).1.log
  unfolding after_failure
  after_failure-Grows deadline left attempt exc m =
      elim (Bool-cases (not (is_retryable exc) || eqb left 0)) [
        | inl stop ↦ rw stop (record { called = omega arith; in_time = λ h. h })
        | inr go ↦
            rw go (pause_or_raise-Grows deadline attempt (retry_after_seconds u env.is_digit exc) m)
      ]

  -- How the rounds of one provider end.
  pub record Rounds (name : Text) (prompt : Prompt) (deadline bound : ℕ) (m : Machine W)
      (r : Result ValueError Answer × Machine W) : Type 0 where
    pub grows : Grows deadline bound m.log r.1.log
    pub answered :
        (g : Generation) (said : Option Note)
        → r.0 ≡ ok (some g, said)
        → (w : W) × ((env.ask name prompt w).0 ≡ ok g)
    pub explained :
        (said : Option Note)
        → 0 < bound
        → r.0 ≡ ok (none, said)
        → (exc : Failure) × (said ≡ some (failed name exc))
    pub escaped : (e : ValueError) → r.0 ≡ err e → AsksOddly env u settings name prompt

  call-Grows :
      (name : Text) (prompt : Prompt) (deadline : ℕ) (m : Machine W)
      → Grows deadline 1 m.log (call env u settings name prompt m).1.log
  call-Grows name prompt deadline m = record {
    called = omega (arith, calls-append m.log (asked name ∷ []));
    in_time = λ h. InTime-append deadline m.log (asked name ∷ []) h tt;
  }

  pub Grows_trans :
      (deadline i j : ℕ) (a b c : List Happening)
      → Grows deadline i a b
      → Grows deadline j b c
      → Grows deadline (i + j) a c
  Grows_trans deadline i j a b c f g = record {
    called = omega (arith, f.called, g.called);
    in_time = λ h. g.in_time (f.in_time h);
  }

  module _ (name : Text) (prompt : Prompt) (deadline : ℕ) where
    first :
        (left : ℕ) (m : Machine W)
        → Grows deadline (suc left) m.log (call env u settings name prompt m).1.log
    first left m =
        let g = call-Grows name prompt deadline m in
        record { called = omega (arith, g.called); in_time = g.in_time }

    -- A failed call, and then either its end or the rounds that are left.
    failed_call :
        (left : ℕ) (exc : Failure) (m : Machine W) (next : Result ValueError Bool × Machine W)
        (more : Result ValueError Answer × Machine W)
        → Grows deadline 1 m.log next.1.log
        → Rounds name prompt deadline left next.1 more
        → (next.0 ≡ ok true → 0 < left)
        → ((e : ValueError) → next.0 ≡ err e → AsksOddly env u settings name prompt)
        → Rounds name prompt deadline
            (suc left)
            m
            (go_on_if env u settings next more (none, some (failed name exc)))
    failed_call left exc m (ok true, m') more g r some_left odd = record {
      grows = record {
        called = omega (arith, g.called, r.grows.called);
        in_time = λ h. r.grows.in_time (g.in_time h);
      };
      answered = r.answered;
      explained = λ said h q. r.explained said (some_left refl) q;
      escaped = r.escaped;
    }
    failed_call left exc m (ok false, m') more g r some_left odd = record {
      grows = record { called = omega (arith, g.called); in_time = g.in_time };
      answered = λ h said q. cc q;
      explained = λ said h q. (exc, cc q);
      escaped = λ e q. cc q;
    }
    failed_call left exc m (err x, m') more g r some_left odd = record {
      grows = record { called = omega (arith, g.called); in_time = g.in_time };
      answered = λ h said q. cc q;
      explained = λ said h q. cc q;
      escaped = λ e q. odd x refl;
    }

    goes_on :
        (left attempt : ℕ) (exc : Failure) (m : Machine W)
        → (after_failure env u settings deadline left attempt exc m).0 ≡ ok true
        → 0 < left
    unfolding after_failure
    goes_on left attempt exc m h = elim (Bool-cases (eqb left 0)) [
      | inl last ↦ stops last h
      | inr more ↦ ground arith
    ]
      where
        stops :
            eqb left 0 ≡ true
            → (after_failure env u settings deadline left attempt exc m).0 ≡ ok true
            → 0 < left
        stops last k =
            let stop : (not (is_retryable exc) || eqb left 0) ≡ true = ground arith in
            cc (rw stop at k)

    pub attempt_rounds-Rounds :
        (left attempt : ℕ) (m : Machine W)
        → Rounds name prompt deadline left m
            (attempt_rounds env u settings name prompt deadline left attempt m)
    unfolding attempt_rounds
    attempt_rounds-Rounds zero attempt m = record {
      grows = record { called = omega arith; in_time = λ h. h };
      answered = λ g said e. cc e;
      explained = λ said h e. absurd (omega arith);
      escaped = λ e q. cc q;
    }
    attempt_rounds-Rounds (suc left) attempt m =
        let called = call env u settings name prompt m in
        elim (Result-cases called.0) [
          | inl (g, e) ↦
              rw (e, attempt_rounds)
                (record {
                  grows = first left m;
                  answered = λ h said q. (m.world, e ∙ cc q);
                  explained = λ said h q. cc q;
                  escaped = λ x q. cc q;
                })
          | inr (exc, e) ↦
              let next = after_failure env u settings deadline left attempt exc called.1 in
              let grows =
                Grows_trans deadline 1 0 m.log called.1.log next.1.log
                  (call-Grows name prompt deadline m)
                  (after_failure-Grows deadline left attempt exc called.1) in
              rw (e, attempt_rounds)
                (failed_call left exc m next _ grows
                  (attempt_rounds-Rounds left (attempt + 1) next.1)
                  (goes_on left attempt exc called.1)
                  (λ x q.
                    let (status, value, is, odd) =
                      after_failure-raises env u settings deadline left attempt exc called.1 x q in
                    (m.world, status, value, e ∙ ap err is, odd)))
        ]
