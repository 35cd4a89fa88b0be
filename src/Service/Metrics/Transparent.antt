-- ===== src/Service/Metrics/Transparent.antt =====
-- Calls over the counting service follow the calls over the service that it wraps.
use upcloud_csi.Base.{
  ℕ, ◌+◌, length, String, arith, ◌≡◌, refl, Bool, true, false, if◌then◌else◌, none, some, List, [],
  ◌∷◌,
}
use upcloud_csi.Go.{
  Action, Error, Sentinel, Result, ok, err, panic, is_error, pure, raise, lift, catch, map_error,
  allow, for_each, ◌>>=◌,
}
use upcloud_csi.Service.Metrics.{
  Instrumented, Requests, Durations, recorded, timed, record_call, observe, instrument,
}

-- As many calls of a method were timed as were counted.
abbrev pub IsBalanced : {S : Type 0} → Instrumented S → Type 0
IsBalanced s =
    (method : String)
    → s.requests method "success" + s.requests method "error" ≡ length (s.durations method)

-- A call answers as another one does on the world alone, and leaves the same world and metrics that
-- agree.
pub record Follows {S A : Type 0} (m : Action (Instrumented S) A) (n : Action S A) : Type 0 where
  pub answer : (s : Instrumented S) → (m s).0 ≡ (n s.world).0
  pub world_after : (s : Instrumented S) → (m s).1.world ≡ (n s.world).1
  pub balances : (s : Instrumented S) → IsBalanced s → IsBalanced (m s).1

balanced :
    {A : Type 0} (method m : String) (r : Result A) (d : ℕ) (requests : Requests)
    (durations : Durations)
    → requests m "success" + requests m "error" ≡ length (durations m)
    → recorded method r requests m "success" + recorded method r requests m "error"
      ≡ length (timed method d r durations m)
unfolding record_call observe
balanced method m (ok a) d requests durations h = ground arith
balanced method m (err e) d requests durations h = ground arith
balanced method m panic d requests durations h = h

module _ {S A : Type 0} where
  pub instrument-Follows : (method : _) (n : Action S A) → Follows (instrument method n) n
  unfolding instrument
  instrument-Follows method n = record {
    answer = λ s. refl;
    world_after = λ s. refl;
    balances = λ s h m. balanced method m (n s.world).0 _ s.requests s.durations (h m);
  }

  pub pure-Follows : (a : A) → Follows (pure {S = Instrumented S} a) (pure {S = S} a)
  pure-Follows a = record { answer = λ s. refl; world_after = λ s. refl; balances = λ s h. h }

  pub raise-Follows :
      (e : Error) → Follows (raise {S = Instrumented S} {A = A} e) (raise {S = S} {A = A} e)
  raise-Follows e = record { answer = λ s. refl; world_after = λ s. refl; balances = λ s h. h }

  pub lift-Follows : (r : Result A) → Follows (lift {S = Instrumented S} r) (lift {S = S} r)
  lift-Follows r = record { answer = λ s. refl; world_after = λ s. refl; balances = λ s h. h }

  pub if-Follows :
      (b : Bool) (m m' : Action (Instrumented S) A) (n n' : Action S A)
      → Follows m n
      → Follows m' n'
      → Follows (if b then m else m') (if b then n else n')
  if-Follows true m m' n n' h h' = h
  if-Follows false m m' n n' h h' = h'

module _ {S A B : Type 0} where
  bind_pair :
      (f : A → Action (Instrumented S) B) (g : A → Action S B)
      → ((a : A) → Follows (f a) (g a))
      → (r : Result A) (s : Instrumented S)
      → (((lift r >>= f) s).0 ≡ ((lift r >>= g) s.world).0)
        × (((lift r >>= f) s).1.world ≡ ((lift r >>= g) s.world).1)
  bind_pair f g h (ok a) s = ((h a).answer s, (h a).world_after s)
  bind_pair f g h (err e) s = (refl, refl)
  bind_pair f g h panic s = (refl, refl)

  bind_at :
      (f : A → Action (Instrumented S) B) (g : A → Action S B)
      → ((a : A) → Follows (f a) (g a))
      → (r r' : Result A) (s : Instrumented S) (w : S) → r ≡ r'
      → s.world ≡ w
      → (((lift r >>= f) s).0 ≡ ((lift r' >>= g) w).0)
        × (((lift r >>= f) s).1.world ≡ ((lift r' >>= g) w).1)
  bind_at f g h r r' s w e e' = rw (← e, ← e') (bind_pair f g h r s)

  bind_balances :
      (f : A → Action (Instrumented S) B)
      → ((a : A) (s : Instrumented S) → IsBalanced s → IsBalanced (f a s).1)
      → (r : Result A) (s : Instrumented S) → IsBalanced s
      → IsBalanced ((lift r >>= f) s).1
  bind_balances f h (ok a) s b = h a s b
  bind_balances f h (err e) s b = b
  bind_balances f h panic s b = b

  pub bind-Follows :
      (m : Action (Instrumented S) A) (f : A → Action (Instrumented S) B) (n : Action S A)
      (g : A → Action S B)
      → Follows m n
      → ((a : A) → Follows (f a) (g a))
      → Follows (m >>= f) (n >>= g)
  bind-Follows m f n g hm hf = record {
    answer = λ s.
        (bind_at f g hf (m s).0 (n s.world).0 (m s).1 (n s.world).1 (hm.answer s)
          (hm.world_after s)).0;
    world_after = λ s.
        (bind_at f g hf (m s).0 (n s.world).0 (m s).1 (n s.world).1 (hm.answer s)
          (hm.world_after s)).1;
    balances = λ s b. bind_balances f (λ a. (hf a).balances) (m s).0 (m s).1 (hm.balances s b);
  }

module _ {S A : Type 0} where
  catch_at :
      (h : Error → Action (Instrumented S) A) (k : Error → Action S A)
      → ((e : Error) → Follows (h e) (k e))
      → (r r' : Result A) (s : Instrumented S) (w : S) → r ≡ r'
      → s.world ≡ w
      → ((catch (lift r) h s).0 ≡ (catch (lift r') k w).0)
        × ((catch (lift r) h s).1.world ≡ (catch (lift r') k w).1)
  catch_at h k hk r r' s w e e' = rw (← e, ← e') (go r s)
    where
      go :
          (r : Result A) (s : Instrumented S)
          → ((catch (lift r) h s).0 ≡ (catch (lift r) k s.world).0)
            × ((catch (lift r) h s).1.world ≡ (catch (lift r) k s.world).1)
      go (ok a) s = (refl, refl)
      go (err c) s = ((hk c).answer s, (hk c).world_after s)
      go panic s = (refl, refl)

  catch_balances :
      (h : Error → Action (Instrumented S) A)
      → ((e : Error) (s : Instrumented S) → IsBalanced s → IsBalanced (h e s).1)
      → (r : Result A) (s : Instrumented S) → IsBalanced s
      → IsBalanced (catch (lift r) h s).1
  catch_balances h k (ok a) s b = b
  catch_balances h k (err e) s b = k e s b
  catch_balances h k panic s b = b

  pub catch-Follows :
      (m : Action (Instrumented S) A) (n : Action S A) (h : Error → Action (Instrumented S) A)
      (k : Error → Action S A)
      → Follows m n
      → ((e : Error) → Follows (h e) (k e))
      → Follows (catch m h) (catch n k)
  catch-Follows m n h k hm hk = record {
    answer = λ s.
        (catch_at h k hk (m s).0 (n s.world).0 (m s).1 (n s.world).1 (hm.answer s)
          (hm.world_after s)).0;
    world_after = λ s.
        (catch_at h k hk (m s).0 (n s.world).0 (m s).1 (n s.world).1 (hm.answer s)
          (hm.world_after s)).1;
    balances = λ s b. catch_balances h (λ e. (hk e).balances) (m s).0 (m s).1 (hm.balances s b);
  }

module _ {S A : Type 0} where
  pub map_error-Follows :
      (f : Error → Error) (m : Action (Instrumented S) A) (n : Action S A)
      → Follows m n
      → Follows (map_error f m) (map_error f n)
  map_error-Follows f m n h = catch-Follows m n _ _ h (λ e. raise-Follows (f e))

  pub allow-Follows :
      (x : Sentinel) (m : Action (Instrumented S) A) (n : Action S A)
      → Follows m n
      → Follows (allow x m) (allow x n)
  allow-Follows x m n h =
      catch-Follows _ _ _ _ (bind-Follows m _ n _ h (λ a. pure-Follows (some a)))
        (λ e. if-Follows (is_error e x) _ _ _ _ (pure-Follows none) (raise-Follows e))

  pub for_each-Follows :
      (f : A → Action (Instrumented S) (Unit {0})) (g : A → Action S (Unit {0})) (xs : List A)
      → ((a : A) → Follows (f a) (g a))
      → Follows (for_each f xs) (for_each g xs)
  for_each-Follows f g [] h = pure-Follows tt
  for_each-Follows f g (x ∷ xs) h =
      bind-Follows (f x) _ (g x) _ (h x) (λ _. for_each-Follows f g xs h)

pub ruleset follows_rules = (
  instrument-Follows, pure-Follows, raise-Follows, lift-Follows, if-Follows, bind-Follows,
  catch-Follows, map_error-Follows, allow-Follows, for_each-Follows,
)
