-- ===== src/Api/Ensures.antt =====
-- What holds when a statement of a handler returns and what it may raise, and the rules for its parts.
use production_rag.Base.{ap, err-injective, ◌≡◌, refl, sym, ok-injective, ℕ, Result, ok, err}
use production_rag.Permissions.{value_error}
use production_rag.Api.{
  Exception, refused, bad_value, unexpected, App, Act, ◌>>=◌, ◌>>◌, pure, call, get, change, run,
  after, as_unsafe_refusal, with_unsafe_refusals, unsafe_query,
}

-- Nothing but an `ApiError`.
abbrev pub Refusal : Exception → Type 0
Refusal (refused e) = Unit
Refusal (unsafe_query e) = ⊥
Refusal (bad_value e) = ⊥
Refusal unexpected = ⊥

-- An `ApiError`, or an `UnsafeQueryError`.
abbrev pub Foreseen : Exception → Type 0
Foreseen (refused e) = Unit
Foreseen (unsafe_query e) = Unit
Foreseen (bad_value e) = ⊥
Foreseen unexpected = ⊥

as_unsafe_refusal-ok :
    {A : Type 0} (status : ℕ) (r : Result Exception A) (x : A)
    → as_unsafe_refusal status r ≡ ok x
    → r ≡ ok x
as_unsafe_refusal-ok status (ok y) x h = h
as_unsafe_refusal-ok status (err (refused e)) x h = cc h
as_unsafe_refusal-ok status (err (unsafe_query e)) x h = cc h
as_unsafe_refusal-ok status (err (bad_value e)) x h = cc h
as_unsafe_refusal-ok status (err unexpected) x h = cc h

pub Refusal-of : {e e' : Exception} → e ≡ e' → Refusal e → Refusal e'
Refusal-of q h = rw q at h

-- Whatever is raised under a handler of `UnsafeQueryError` that was foreseen is a refusal.
as_unsafe_refusal-Refusal :
    {A : Type 0} (status : ℕ) (r : Result Exception A)
    → ((e : Exception) → r ≡ err e → Foreseen e)
    → (e : Exception) → as_unsafe_refusal status r ≡ err e
    → Refusal e
as_unsafe_refusal-Refusal status (ok x) f e h = cc h
as_unsafe_refusal-Refusal status (err (refused x)) f e h = Refusal-of (err-injective h) tt
as_unsafe_refusal-Refusal status (err (unsafe_query (value_error m))) f e h =
    Refusal-of (err-injective h) tt
as_unsafe_refusal-Refusal status (err (bad_value x)) f e h = absurd (f (bad_value x) refl)
as_unsafe_refusal-Refusal status (err unexpected) f e h = absurd (f unexpected refl)

module _ {G : Type 0} where
  -- What holds of a raised exception, and of the result and the application, if the statement returns.
  pub record Ensures {A : Type 0} (m : Act G A) (a : App G) (E : Exception → Type 0)
      (Q : A → App G → Type 0) : Type 0 where
    pub raised : (e : Exception) → (m a).0 ≡ err e → E e
    pub ensured : (x : A) → (m a).0 ≡ ok x → Q x (m a).1

  module _ {E : Exception → Type 0} where
    after-raised :
        {A B : Type 0} (out : Result Exception A × App G) (k : A → Act G B) (Q : A → App G → Type 0)
        (R : B → App G → Type 0)
        → ((e : Exception) → out.0 ≡ err e → E e)
        → ((x : A) → out.0 ≡ ok x → Q x out.1)
        → ((x : A) (b : App G) → Q x b → Ensures (k x) b E R)
        → (e : Exception) → (after out k).0 ≡ err e
        → E e
    after-raised (ok x, b) k Q R d f g e h = (g x b (f x refl)).raised e h
    after-raised (err e', b) k Q R d f g e h = d e (ap err (err-injective h))

    after-ensured :
        {A B : Type 0} (out : Result Exception A × App G) (k : A → Act G B) (Q : A → App G → Type 0)
        (R : B → App G → Type 0)
        → ((x : A) → out.0 ≡ ok x → Q x out.1)
        → ((x : A) (b : App G) → Q x b → Ensures (k x) b E R)
        → (y : B) → (after out k).0 ≡ ok y
        → R y (after out k).1
    after-ensured (ok x, b) k Q R f g y h = (g x b (f x refl)).ensured y h
    after-ensured (err e, b) k Q R f g y h = cc h

    pub Ensures-bind :
        {A B : Type 0} {m : Act G A} {k : A → Act G B} {a : App G} (Q : A → App G → Type 0)
        {R : B → App G → Type 0}
        → Ensures m a E Q
        → ((x : A) (b : App G) → Q x b → Ensures (k x) b E R)
        → Ensures (m >>= k) a E R
    unfolding ◌>>=◌
    Ensures-bind {A} {B} {m} {k} {a} Q {R} f g = record {
      raised = after-raised (m a) k Q R f.raised f.ensured g;
      ensured = after-ensured (m a) k Q R f.ensured g;
    }

    pub Ensures-then :
        {A B : Type 0} {m : Act G A} {k : Act G B} {a : App G} (Q : A → App G → Type 0)
        {R : B → App G → Type 0}
        → Ensures m a E Q
        → ((x : A) (b : App G) → Q x b → Ensures k b E R)
        → Ensures (m >> k) a E R
    unfolding ◌>>◌
    Ensures-then {A} {B} {m} {k} {a} Q {R} f g = record {
      raised = after-raised (m a) (λ x. k) Q R f.raised f.ensured g;
      ensured = after-ensured (m a) (λ x. k) Q R f.ensured g;
    }

    pub Ensures-pure :
        {A : Type 0} (x : A) {a : App G} {Q : A → App G → Type 0} → Q x a → Ensures (pure x) a E Q
    unfolding pure
    Ensures-pure x q = record { raised = λ e h. cc h; ensured = λ y h. rw (sym (ok-injective h)) q }

    pub Ensures-call :
        {A : Type 0} (r : Result Exception A) {a : App G} {Q : A → App G → Type 0}
        → ((e : Exception) → r ≡ err e → E e)
        → ((x : A) → r ≡ ok x → Q x a)
        → Ensures (call r) a E Q
    unfolding call
    Ensures-call r d q = record { raised = d; ensured = q }

    pub Ensures-get :
        {A : Type 0} (f : App G → A) {a : App G} {Q : A → App G → Type 0}
        → Q (f a) a
        → Ensures (get f) a E Q
    unfolding get
    Ensures-get f q = record { raised = λ e h. cc h; ensured = λ y h. rw (sym (ok-injective h)) q }

    pub Ensures-run :
        {A : Type 0} (f : App G → A × App G) {a : App G} {Q : A → App G → Type 0}
        → Q (f a).0 (f a).1
        → Ensures (run f) a E Q
    unfolding run
    Ensures-run f q = record { raised = λ e h. cc h; ensured = λ y h. rw (sym (ok-injective h)) q }

    pub Ensures-change :
        (f : App G → App G) {a : App G} {Q : Unit {0} → App G → Type 0}
        → Q tt (f a)
        → Ensures (change f) a E Q
    unfolding change
    Ensures-change f q = record { raised = λ e h. cc h; ensured = λ y h. q }

    pub Ensures-weaken :
        {A : Type 0} {m : Act G A} {a : App G} {Q R : A → App G → Type 0}
        → Ensures m a E Q
        → ((x : A) (b : App G) → Q x b → R x b)
        → Ensures m a E R
    Ensures-weaken {A} {m} {a} f w = record {
      raised = f.raised;
      ensured = λ x h. w x (m a).1 (f.ensured x h);
    }

  -- Fewer exceptions are raised than those allowed.
  pub Ensures-raises :
      {A : Type 0} {m : Act G A} {a : App G} {E F : Exception → Type 0} {Q : A → App G → Type 0}
      → Ensures m a E Q
      → ((e : Exception) → E e → F e)
      → Ensures m a F Q
  Ensures-raises f w = record { raised = λ e h. w e (f.raised e h); ensured = f.ensured }

  pub Ensures-with_unsafe_refusals :
      {A : Type 0} (status : ℕ) {m : Act G A} {a : App G} {Q : A → App G → Type 0}
      → Ensures m a Foreseen Q
      → Ensures (with_unsafe_refusals status m) a Refusal Q
  unfolding with_unsafe_refusals
  Ensures-with_unsafe_refusals status {m} {a} f = record {
    raised = as_unsafe_refusal-Refusal status (m a).0 f.raised;
    ensured = λ x h. f.ensured x (as_unsafe_refusal-ok status (m a).0 x h);
  }
