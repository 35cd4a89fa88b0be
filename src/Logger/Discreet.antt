-- ===== src/Logger/Discreet.antt =====
-- What the log of calls gives away (internal/logger/logger.go).
use upcloud_csi.Base.{◌≡◌, ◌-◌, refl, ap, true, false, Option, none, some, String, StringMap, ltb}
use upcloud_csi.Go.{Action, Result, ok, err, panic, ◌>>=◌}
use upcloud_csi.Logger.{
  Context, Random, Output, Request, debug_level, debugging, show_if, with_request, with_response,
  log_outcome, opened, logged_call, assign_id, new_middleware, with_server_context,
}

show_if-false :
    (with : StringMap → String → StringMap) (x : Option String) (fields : StringMap)
    → show_if false with x fields ≡ fields
show_if-false with none fields = refl
show_if-false with (some x) fields = refl

hidden :
    {S : Type 0} (out : Output S)
    → ltb out.level debug_level ≡ true
    → (with : StringMap → String → StringMap) (x : Option String) (fields : StringMap)
    → show_if (debugging out) with x fields ≡ fields
hidden out quiet with x fields = rw quiet (show_if-false with x fields)

module _ {S A : Type 0} (out : Output S) (quiet : ltb out.level debug_level ≡ true) where
  log_outcome_discreet :
      (req : Request) (text : A → Option String) (fields : _) (elapsed : _) (r : Result A) (s : S)
      → log_outcome out req text fields elapsed r s
        ≡ log_outcome out (record req { text = none }) (λ a. none) fields elapsed r s
  unfolding log_outcome
  log_outcome_discreet req text fields elapsed (ok a) s =
      rw (log_outcome, hidden out quiet with_response (text a) fields) refl
  log_outcome_discreet req text fields elapsed (err e) s =
      rw (log_outcome, hidden out quiet with_request req.text fields) refl
  log_outcome_discreet req text fields elapsed panic s = refl

  logged_call_discreet :
      (req : Request) (text : A → Option String) (handler : Context → Action S A) (ctx : Context)
      (s : S)
      → logged_call out req text handler ctx s
        ≡ logged_call out (record req { text = none }) (λ a. none) handler ctx s
  unfolding logged_call
  logged_call_discreet req text handler ctx s =
      let fields = with_server_context ctx out.fields in
      let t = opened out ctx s in
      let done = handler ctx t in
      ap (λ (z : S). (done.0, z))
        (log_outcome_discreet req text fields (out.now done.1 - out.now t) done.0 done.1)

  -- Below the level of debugging, what is logged of a call does not depend on the texts of its request
  -- and of its response: the call answers the same and leaves the same world, log included, whatever
  -- these are.
  pub new_middleware_discreet :
      (random : Random S) (req : Request) (text : A → Option String) (method : String)
      (handler : Context → Action S A) (ctx : Context) (s : S)
      → new_middleware random out req text method handler ctx s
        ≡ new_middleware random out (record req { text = none }) (λ a. none) method handler ctx s
  unfolding new_middleware
  new_middleware_discreet random req text method handler ctx s =
      ap (λ k. (assign_id random req.publish_context >>= k) s)
        (λ i id t.
          logged_call_discreet req text handler
            (record ctx { correlation_id = some id; called_method = some method }) t i)
