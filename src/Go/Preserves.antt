-- ===== src/Go/Preserves.antt =====
-- Calls that leave a view of the state as it was, whether they return, fail or panic.
use upcloud_csi.Base.{◌≡◌, refl, ◌∙◌, arith, Bool, true, false, if◌then◌else◌}
use upcloud_csi.Go.Errors.{Error, Result, ok, err, panic}
use upcloud_csi.Go.Effects.{Action, pure, raise, lift, catch, map_error, ◌>>=◌}

pub record Preserves {S V A : Type 0} (view : S → V) (m : Action S A) : Type 0 where
  pub at : (s : S) → view (m s).1 ≡ view s

module _ {S V A : Type 0} {view : S → V} where
  pub pure-Preserves : (a : A) → Preserves view (pure a)
  pure-Preserves a = record { at = λ s. refl }

  pub raise-Preserves : (e : Error) → Preserves view (raise {S = S} {A = A} e)
  raise-Preserves e = record { at = λ s. refl }

  pub if-Preserves :
      (b : Bool) (m n : Action S A)
      → Preserves view m
      → Preserves view n
      → Preserves view (if b then m else n)
  if-Preserves true m n hm hn = hm
  if-Preserves false m n hm hn = hn

  pub lift-Preserves : (r : Result A) → Preserves view (lift {S = S} r)
  lift-Preserves r = record { at = λ s. refl }

  caught-Preserves :
      (h : Error → Action S A)
      → ((e : Error) → Preserves view (h e))
      → (r : Result A) (s s' : S) → view s' ≡ view s
      → view (catch (lift r) h s').1 ≡ view s
  caught-Preserves h hh (ok a) s s' e = e
  caught-Preserves h hh (err c) s s' e = (hh c).at s' ∙ e
  caught-Preserves h hh panic s s' e = e

  pub catch-Preserves :
      (m : Action S A) (h : Error → Action S A)
      → Preserves view m
      → ((e : Error) → Preserves view (h e))
      → Preserves view (catch m h)
  catch-Preserves m h hm hh = record { at = λ s. caught-Preserves h hh (m s).0 s (m s).1 (hm.at s) }

  pub map_error-Preserves :
      (f : Error → Error) (m : Action S A) → Preserves view m → Preserves view (map_error f m)
  map_error-Preserves f m hm = record { at = λ s. ground (arith, hm.at s) }

module _ {S V A B : Type 0} {view : S → V} where
  answer-Preserves :
      (f : A → Action S B)
      → ((a : A) → Preserves view (f a))
      → (r : Result A) (s s' : S) → view s' ≡ view s
      → view ((lift r >>= f) s').1 ≡ view s
  answer-Preserves f hf (ok a) s s' e = (hf a).at s' ∙ e
  answer-Preserves f hf (err c) s s' e = e
  answer-Preserves f hf panic s s' e = e

  pub bind-Preserves :
      (m : Action S A) (f : A → Action S B)
      → Preserves view m
      → ((a : A) → Preserves view (f a))
      → Preserves view (m >>= f)
  bind-Preserves m f hm hf = record { at = λ s. answer-Preserves f hf (m s).0 s (m s).1 (hm.at s) }

pub ruleset preserves_rules = (
  pure-Preserves, raise-Preserves, lift-Preserves, catch-Preserves, if-Preserves,
  map_error-Preserves, bind-Preserves,
)
