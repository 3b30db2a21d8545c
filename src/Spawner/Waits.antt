-- ===== src/Spawner/Waits.antt =====
-- Inversion of actions that return, and what waits of `exponential_backoff` come to.
use kubespawner.Prelude.{
  ◌≡◌, refl, sym, ◌∙◌, ap, ◌≢◌, Bool, true, false, if◌then◌else◌, inl, inr, ◌⊎◌,
}
use kubespawner.Spawner.Defs.{
  Exn, Result, ok, err, St, Exec, continue, raise, catch, after_error, Backoff, Waited, IsBackoff,
  passes, raises, expires, retries, ◌>>=◌, ◌>>◌, timeout_error,
}
use kubespawner.Spawner.Stop.{on_timeout}

-- How an action and what follows it return.
pub record Ran {W A B : Type 0} (m : Exec W A) (f : A → Exec W B) (s : St W) (b : B) (t : St W)
    : Type 0 where
  pub value : A
  pub state : St W
  pub first : m s ≡ (ok value, state)
  pub then_rest : f value state ≡ (ok b, t)

module _ {W A B : Type 0} where
  continue_inv :
      (r : Result A) (f : A → Exec W B) (s t : St W) (b : B)
      → continue r f s ≡ (ok b, t)
      → (a : A) × (r ≡ ok a) × (f a s ≡ (ok b, t))
  continue_inv (ok a) f s t b h = (a, refl, h)
  continue_inv (err e) f s t b h = let e = ap (λ (p : Result B × St W). p.0) h in cc e

  pub bind_inv :
      (m : Exec W A) (f : A → Exec W B) (s t : St W) (b : B)
      → (m >>= f) s ≡ (ok b, t)
      → Ran m f s b t
  bind_inv m f s t b h =
      let (a, e, rest) = continue_inv (m s).0 f (m s).1 t b h in
      record {
        value = a;
        state = (m s).1;
        first = ap (λ (r : Result A). (r, (m s).1)) e;
        then_rest = rest;
      }

module _ {W : Type 0} where
  raising :
      (m : Exec W (Unit {0})) {A : Type 0} (e : Exn) (s t : St W) (a : A)
      → (m >> raise {W = W} {A = A} e) s ≢ (ok a, t)
  raising m e s t a h =
      let r = bind_inv m (λ _. raise e) s t a h in
      (let e = ap (λ (p : Result _ × St W). p.0) r.then_rest in cc e)

  on_timeout-raises :
      (h : Exec W (Unit {0})) (e : Exn) {A : Type 0} (s t : St W) (a : A)
      → on_timeout {W = W} {A = A} h e s ≢ (ok a, t)
  on_timeout-raises h timeout_error s t a eq = raising h timeout_error s t a eq
  on_timeout-raises h e s t a eq = (let e = ap (λ (p : Result _ × St W). p.0) eq in cc e)

  after_error_inv :
      {A : Type 0} (h : Exec W (Unit {0})) (r : Result A) (s t : St W) (a : A)
      → after_error {W = W} (on_timeout h) r s ≡ (ok a, t)
      → ◌≡◌ {A = Result A × St W} (r, s) (ok a, t)
  after_error_inv h (ok b) s t a eq = eq
  after_error_inv h (err e) s t a eq = absurd (on_timeout-raises h e s t a eq)

  -- A handler that raises again does not return.
  pub catch_inv :
      {A : Type 0} (m : Exec W A) (h : Exec W (Unit {0})) (s t : St W) (a : A)
      → catch m (on_timeout h) s ≡ (ok a, t)
      → m s ≡ (ok a, t)
  catch_inv m h s t a eq = after_error_inv h (m s).0 (m s).1 t a eq

  ends_true :
      {pass : Exec W Bool} {s t : St W} {r : Result (Unit {0})}
      → Waited pass s r t
      → r ≡ ok tt
      → (u : St W) × (pass u ≡ (ok true, t))
  ends_true (passes {s} e) h = (s, e)
  ends_true (raises e) h = cc h
  ends_true (expires e) h = cc h
  ends_true (retries e later w) h = ends_true w h

  -- A wait that returns ends with a call of its pass function that gives a true value.
  pub backoff_inv :
      (backoff : Backoff W) (wait : IsBackoff backoff)
      → (pass : Exec W Bool) (timeout : _) (s t : St W) → backoff pass timeout s ≡ (ok tt, t)
      → (u : St W) × (pass u ≡ (ok true, t))
  backoff_inv backoff wait pass timeout s t h =
      let (u, e) = ends_true (wait pass timeout s) (ap (λ p. p.0) h) in
      (u, e ∙ ap (λ v. (ok true, v)) (ap (λ p. p.1) h))

  waited_at_once :
      {pass : Exec W Bool} {s t u : St W} {r : Result (Unit {0})}
      → Waited pass s r u
      → pass s ≡ (ok true, t)
      → ◌≡◌ {A = Result (Unit {0}) × St W} (r, u) (ok tt, t)
  waited_at_once (passes e) h = ap (λ v. (ok tt, v)) (ap (λ p. p.1) (sym e ∙ h))
  waited_at_once (raises e) h = (let e = ap (λ (p : Result _ × St W). p.0) (sym e ∙ h) in cc e)
  waited_at_once (expires e) h = (let e = ap (λ (p : Result _ × St W). p.0) (sym e ∙ h) in cc e)
  waited_at_once (retries e later w) h =
      (let e = ap (λ (p : Result _ × St W). p.0) (sym e ∙ h) in cc e)

  -- A wait whose pass function gives a true value at once returns.
  pub backoff_at_once :
      (backoff : Backoff W) (wait : IsBackoff backoff)
      → (pass : Exec W Bool) (timeout : _) (s t : St W) → pass s ≡ (ok true, t)
      → backoff pass timeout s ≡ (ok tt, t)
  backoff_at_once backoff wait pass timeout s t h = waited_at_once (wait pass timeout s) h

-- Which branch of a test ran.
pub if_inv :
    {W A : Type 0} (b : Bool) (m n : Exec W A) (s : St W) (x : Result A × St W)
    → (if b then m else n) s ≡ x
    → ((b ≡ true) × (m s ≡ x)) ⊎ ((b ≡ false) × (n s ≡ x))
if_inv true m n s x h = inl (refl, h)
if_inv false m n s x h = inr (refl, h)
