-- ===== src/Go/Effects.antt =====
-- A call that reads and changes the state of the world and may fail. What was changed before an
-- error or a panic stays changed.
use upcloud_csi.Base.{Option, none, some, if◌then◌else◌, List, [], ◌∷◌}
use upcloud_csi.Go.Errors.{Error, Result, ok, err, panic, Sentinel, is_error}

abbrev pub Action : Type 0 → Type 0 → Type 0
Action S A = S → Result A × S

module _ {S A : Type 0} where
  abbrev pub pure : A → Action S A
  pure a s = (ok a, s)

  abbrev pub raise : Error → Action S A
  raise e s = (err e, s)

  -- A check that touches no state.
  abbrev pub lift : Result A → Action S A
  lift r s = (r, s)

  abbrev handle : (Error → Action S A) → Result A → Action S A
  handle h (ok a) s = (ok a, s)
  handle h (err e) s = h e s
  handle h panic s = (panic, s)

  -- `if err != nil { … }` right after a call.
  abbrev pub catch : Action S A → (Error → Action S A) → Action S A
  catch m h s = let (r, s') = m s in handle h r s'

  -- `if err != nil { return nil, f(err) }`
  abbrev pub map_error : (Error → Error) → Action S A → Action S A
  map_error f m = catch m (λ e. raise (f e))

module _ {S A B : Type 0} where
  abbrev continue : Result A → (A → Action S B) → Action S B
  continue (ok a) f s = f a s
  continue (err e) f s = (err e, s)
  continue panic f s = (panic, s)

  infixl 5 ◌>>=◌ ◌>>◌
  abbrev pub ◌>>=◌ : Action S A → (A → Action S B) → Action S B
  ◌>>=◌ m f s = let (r, s') = m s in continue r f s'

  abbrev pub ◌>>◌ : Action S A → Action S B → Action S B
  m >> n = m >>= λ _. n

module _ {S A : Type 0} where
  -- An error that `errors.Is` finds to be the sentinel is no error to the caller.
  abbrev pub allow : Sentinel → Action S A → Action S (Option A)
  allow t m = catch (m >>= λ a. pure (some a)) (λ e. if is_error e t then pure none else raise e)

-- `for _, x := range xs { if err := f(x); err != nil { return err } }`
module _ {S A : Type 0} where
  abbrev pub for_each : (A → Action S (Unit {0})) → List A → Action S (Unit {0})
  for_each f [] = pure tt
  for_each f (x ∷ xs) = f x >> for_each f xs

module _ {S A : Type 0} where
  -- A call whose error is looked at and dropped: the value, if there was no error.
  abbrev pub attempt : Action S A → Action S (Option A)
  attempt m = catch (m >>= λ a. pure (some a)) (λ e. pure none)
