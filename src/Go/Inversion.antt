-- ===== src/Go/Inversion.antt =====
-- What a chain of calls that succeeded has gone through.
use upcloud_csi.Base.{◌≡◌, refl, ap, arith, ◌⊎◌, inl, inr, true, Option, none, some, Bool-cases}
use upcloud_csi.Go.Errors.{Error, Sentinel, Result, ok, err, panic, is_error}
use upcloud_csi.Go.Effects.{Action, lift, catch, map_error, allow, attempt, ◌>>=◌}

module _ {S A B : Type 0} where
  answer-eq-ok :
      (f : A → Action S B) (r : Result A) (t s' : S) (b : B)
      → (lift r >>= f) t ≡ (ok b, s')
      → (a : A) × (r ≡ ok a) × (f a t ≡ (ok b, s'))
  answer-eq-ok f (ok a) t s' b e = (a, refl, e)
  answer-eq-ok f (err c) t s' b e = absurd (cc e)
  answer-eq-ok f panic t s' b e = absurd (cc e)

  -- The first call succeeded, and the rest did, from the state that it left.
  pub bind-eq-ok :
      (m : Action S A) (f : A → Action S B) (s s' : S) (b : B)
      → (m >>= f) s ≡ (ok b, s')
      → (a : A) × (t : S) × (m s ≡ (ok a, t)) × (f a t ≡ (ok b, s'))
  bind-eq-ok m f s s' b e =
      let (a, r, rest) = answer-eq-ok f (m s).0 (m s).1 s' b e in
      (a, (m s).1, ap (λ (x : Result A). (x, (m s).1)) r, rest)

module _ {S A : Type 0} where
  pub map_error-eq-ok :
      (f : Error → Error) (m : Action S A) (s s' : S) (a : A)
      → map_error f m s ≡ (ok a, s')
      → m s ≡ (ok a, s')
  map_error-eq-ok f m s s' a e = ground arith

  answer-eq-caught :
      (h : Error → Action S A) (r : Result A) (t s' : S) (a : A)
      → catch (lift r) h t ≡ (ok a, s')
      → (lift r t ≡ (ok a, s')) ⊎ ((c : Error) × (r ≡ err c) × (h c t ≡ (ok a, s')))
  answer-eq-caught h (ok b) t s' a e = inl e
  answer-eq-caught h (err c) t s' a e = inr (c, refl, e)
  answer-eq-caught h panic t s' a e = absurd (cc e)

  -- The call succeeded, or it failed and its error was taken care of.
  pub catch-eq-ok :
      (m : Action S A) (h : Error → Action S A) (s s' : S) (a : A)
      → catch m h s ≡ (ok a, s')
      → (m s ≡ (ok a, s')) ⊎ ((c : Error) × ((m s).0 ≡ err c) × (h c (m s).1 ≡ (ok a, s')))
  catch-eq-ok m h s s' a e = answer-eq-caught h (m s).0 (m s).1 s' a e

  -- A check of the request passed, and changed nothing.
  pub checked-eq-ok :
      (f : Error → Error) (r : Result A) (s s' : S) (a : A)
      → map_error f (lift r) s ≡ (ok a, s')
      → (r ≡ ok a) × (s ≡ s')
  checked-eq-ok f r s s' a e = ground arith

-- The call succeeded with what is returned, or failed with the sentinel that the caller allows.
abbrev pub IsAllowed : {S A : Type 0} → Sentinel → Action S A → S → Option A → S → Type 0
IsAllowed {A = A} x m s o s' =
    ((a : A) × (o ≡ some a) × (m s ≡ (ok a, s')))
    ⊎ ((e : Error) × (o ≡ none) × (is_error e x ≡ true) × (m s ≡ (err e, s')))

module _ {S A : Type 0} where
  allow_answer :
      (x : Sentinel) (r : Result A) (t s' : S) (o : Option A)
      → allow x (lift r) t ≡ (ok o, s')
      → IsAllowed x (lift r) t o s'
  allow_answer x (ok a) t s' o e = inl (a, ground arith, ground arith)
  allow_answer x panic t s' o e = absurd (ground arith)
  allow_answer x (err c) t s' o e = elim (Bool-cases (is_error c x)) [
    | inl yes' ↦ inr (c, ground (arith, yes'), yes', ground (arith, yes'))
    | inr no' ↦ absurd (ground (arith, no'))
  ]

  pub allow-eq-ok :
      (x : Sentinel) (m : Action S A) (s s' : S) (o : Option A)
      → allow x m s ≡ (ok o, s')
      → IsAllowed x m s o s'
  allow-eq-ok x m s s' o e = allow_answer x (m s).0 (m s).1 s' o e

  pub allow-of-ok :
      (x : Sentinel) (m : Action S A) (s s' : S) (a : A)
      → m s ≡ (ok a, s')
      → allow x m s ≡ (ok (some a), s')
  allow-of-ok x m s s' a e = rw e

  pub allow-of-err :
      (x : Sentinel) (m : Action S A) (s s' : S) (c : Error)
      → m s ≡ (err c, s')
      → is_error c x ≡ true
      → allow x m s ≡ (ok none, s')
  allow-of-err x m s s' c e h = rw (e, h)

-- What a call that may fail returned, or that it failed.
abbrev pub IsAttempt : {S A : Type 0} → Action S A → S → Option A → Type 0
IsAttempt {A = A} m s o =
    ((a : A) × (o ≡ some a) × ((m s).0 ≡ ok a)) ⊎ ((c : Error) × (o ≡ none) × ((m s).0 ≡ err c))

module _ {S A : Type 0} where
  attempt_answer :
      (r : Result A) (t s' : S) (o : Option A)
      → attempt (lift r) t ≡ (ok o, s')
      → (t ≡ s') × IsAttempt (lift r) t o
  attempt_answer (ok a) t s' o e = (ground (arith, e), inl (a, ground (arith, e), refl))
  attempt_answer (err c) t s' o e = (ground (arith, e), inr (c, ground (arith, e), refl))
  attempt_answer panic t s' o e = absurd (cc e)

  pub attempt-eq-ok :
      (m : Action S A) (s s' : S) (o : Option A)
      → attempt m s ≡ (ok o, s')
      → ((m s).1 ≡ s') × IsAttempt m s o
  attempt-eq-ok m s s' o e = attempt_answer (m s).0 (m s).1 s' o e
