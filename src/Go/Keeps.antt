-- ===== src/Go/Keeps.antt =====
-- Calls that keep a property of the state, whether they return, fail or panic.
use upcloud_csi.Base.{◌≡◌, refl, ap, Bool, true, false, if◌then◌else◌, List, [], ◌∷◌}
use upcloud_csi.Go.Errors.{Error, Result, ok, err, panic}
use upcloud_csi.Go.Effects.{Action, pure, raise, lift, catch, for_each, ◌>>=◌}

pub record Keeps {S A : Type 0} (P : S → Type 0) (m : Action S A) : Type 0 where
  pub at : (s : S) → P s → P (m s).1

module _ {S A : Type 0} {P : S → Type 0} where
  pub pure-Keeps : (a : A) → Keeps P (pure a)
  pure-Keeps a = record { at = λ s h. h }

  pub raise-Keeps : (e : Error) → Keeps P (raise {S = S} {A = A} e)
  raise-Keeps e = record { at = λ s h. h }

  pub lift-Keeps : (r : Result A) → Keeps P (lift {S = S} r)
  lift-Keeps r = record { at = λ s h. h }

  pub if-Keeps :
      (b : Bool) (m n : Action S A) → Keeps P m → Keeps P n → Keeps P (if b then m else n)
  if-Keeps true m n hm hn = hm
  if-Keeps false m n hm hn = hn

  caught-Keeps :
      (h : Error → Action S A)
      → ((e : Error) → Keeps P (h e))
      → (r : Result A) (t : S) → P t
      → P (catch (lift r) h t).1
  caught-Keeps h hh (ok a) t p = p
  caught-Keeps h hh (err c) t p = (hh c).at t p
  caught-Keeps h hh panic t p = p

  pub catch-Keeps :
      (m : Action S A) (h : Error → Action S A)
      → Keeps P m
      → ((e : Error) → Keeps P (h e))
      → Keeps P (catch m h)
  catch-Keeps m h hm hh = record { at = λ s p. caught-Keeps h hh (m s).0 (m s).1 (hm.at s p) }

module _ {S A B : Type 0} (P : S → Type 0) where
  answer-Keeps :
      (f : A → Action S B) (r : Result A) (t : S)
      → P t
      → ((a : A) → r ≡ ok a → P (f a t).1)
      → P ((lift r >>= f) t).1
  answer-Keeps f (ok a) t p h = h a refl
  answer-Keeps f (err c) t p h = p
  answer-Keeps f panic t p h = p

  -- The rest of the calls may use what the first one has returned.
  pub bind-at :
      (m : Action S A) (f : A → Action S B) (s : S)
      → P (m s).1
      → ((a : A) → m s ≡ (ok a, (m s).1) → P (f a (m s).1).1)
      → P ((m >>= f) s).1
  bind-at m f s p h =
      answer-Keeps f (m s).0 (m s).1 p (λ a e. h a (ap (λ (r : Result A). (r, (m s).1)) e))

module _ {S A B : Type 0} {P : S → Type 0} where
  pub bind-Keeps :
      (m : Action S A) (f : A → Action S B)
      → Keeps P m
      → ((a : A) → Keeps P (f a))
      → Keeps P (m >>= f)
  bind-Keeps m f hm hf = record {
    at = λ s p. bind-at P m f s (hm.at s p) (λ a e. (hf a).at (m s).1 (hm.at s p));
  }

module _ {S A : Type 0} {P : S → Type 0} where
  pub for_each-Keeps :
      (f : A → Action S (Unit {0})) (xs : List A)
      → ((a : A) → Keeps P (f a))
      → Keeps P (for_each f xs)
  for_each-Keeps f [] h = pure-Keeps tt
  for_each-Keeps f (x ∷ xs) h = bind-Keeps (f x) _ (h x) (λ _. for_each-Keeps f xs h)

pub ruleset keeps_rules =
    (pure-Keeps, raise-Keeps, lift-Keeps, if-Keeps, catch-Keeps, bind-Keeps, for_each-Keeps)
