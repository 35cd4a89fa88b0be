-- ===== src/Server/Interceptor.antt =====
-- The metrics of CSI calls (internal/server/metrics.go), and the two interceptors that a call goes
-- through (internal/server/plugin.go).
use upcloud_csi.Base.{
  ℕ, suc, ◌-◌, ◌≡◌, refl, sym, ap, subst, none, StringMap, ◌&&◌, arith, Option, some, List, [], ◌∷◌,
  String, str_eq, if◌then◌else◌,
}
use upcloud_csi.Go.{
  Action, ◌>>=◌, Result, ok, err, panic, Error, sentinel, problem, status, wrap, plain, exit_status,
  os_error, Code, invalid_argument, not_found, already_exists, out_of_range, resource_exhausted,
  failed_precondition, aborted, internal, unimplemented,
}
use upcloud_csi.Go.Text.{split}
use upcloud_csi.Service.Metrics.{Durations, observe, timed}
use upcloud_csi.Logger.{
  Context, Random, Output, Request, Entry, informs, reports_error, method_key, correlation_id_key,
  with_server_context, log_outcome, assign_id, opened, logged_call, new_middleware,
}

-- The world with its clock, `csi_plugin_operations_total` by method and code,
-- `csi_plugin_operations_in_flight` by method, and the observations of
-- `csi_plugin_operation_duration_seconds` by method, the last one first.
pub record Served (S : Type 0) : Type 0 where
  pub world : S
  pub clock : S → ℕ
  pub durations : Durations
  pub total : String → String → ℕ
  pub in_flight : String → ℕ

abbrev last_part : List String → String
last_part [] = ""
last_part (x ∷ []) = x
last_part (x ∷ y ∷ ys) = last_part (y ∷ ys)

-- The text after the last slash.
unfoldable pub short_method : String → String
short_method full = last_part (split 47 full)

-- `codes.Code.String()`
abbrev pub code_text : Code → String
code_text invalid_argument = "InvalidArgument"
code_text not_found = "NotFound"
code_text already_exists = "AlreadyExists"
code_text out_of_range = "OutOfRange"
code_text resource_exhausted = "ResourceExhausted"
code_text failed_precondition = "FailedPrecondition"
code_text aborted = "Aborted"
code_text internal = "Internal"
code_text unimplemented = "Unimplemented"

-- `status.Code(err).String()`
abbrev pub error_code_text : Error → String
error_code_text (status c) = code_text c
error_code_text (wrap e) = error_code_text e
error_code_text (sentinel s) = "Unknown"
error_code_text (problem p) = "Unknown"
error_code_text (plain m) = "Unknown"
error_code_text (exit_status n) = "Unknown"
error_code_text (os_error b) = "Unknown"

abbrev pub add_total : String → String → (String → String → ℕ) → String → String → ℕ
add_total method code total m c =
    if str_eq m method && str_eq c code then suc (total m c) else total m c

-- The total after a call; a panic passes it by.
abbrev pub counted {ℓ} :
    {A : Type ℓ} → String → Result A → (String → String → ℕ) → String → String → ℕ
counted method (ok a) total = add_total method "OK" total
counted method (err e) total = add_total method (error_code_text e) total
counted method panic total = total

abbrev pub increment : String → (String → ℕ) → String → ℕ
increment method gauge m = if str_eq m method then suc (gauge m) else gauge m

abbrev pub decrement : String → (String → ℕ) → String → ℕ
decrement method gauge m = if str_eq m method then gauge m - 1 else gauge m

module _ {S A : Type 0} where
  -- The gauge goes down again when the call is over, by a panic too.
  unfoldable pub new_metrics_interceptor : String → Action S A → Action (Served S) A
  unfolding short_method
  new_metrics_interceptor full_method handler s =
      let method = short_method full_method in
      let up = increment method s.in_flight in
      let start = s.clock s.world in
      let (r, w) = handler s.world in
      (
        r,
        record s {
          world = w;
          total = counted method r s.total;
          durations = timed method (s.clock w - start) r s.durations;
          in_flight = decrement method up;
        },
      )

-- The chain of interceptors of the server, the first one outermost.
unfoldable pub intercept :
    {S A : Type 0}
    → Random S
    → Output S
    → Request
    → (A → Option String)
    → String
    → (Context → Action S A)
    → Context
    → Action (Served S) A
unfolding new_metrics_interceptor
intercept random out req text full_method handler ctx =
    new_metrics_interceptor full_method (new_middleware random out req text full_method handler ctx)

-- A call that returned was counted once, for its method and its code; one that panicked was not.
abbrev pub IsCounted :
    {A : Type 0} → String → Result A → (String → String → ℕ) → (String → String → ℕ) → Type 0
IsCounted method panic total total' = total' ≡ total
IsCounted method (ok a) total total' = total' ≡ add_total method "OK" total
IsCounted method (err e) total total' = total' ≡ add_total method (error_code_text e) total

counted-IsCounted :
    {A : Type 0} (method : String) (r : Result A) (total : String → String → ℕ)
    → IsCounted method r total (counted method r total)
counted-IsCounted method (ok a) total = refl
counted-IsCounted method (err e) total = refl
counted-IsCounted method panic total = refl

up_and_down :
    (method m : String) (gauge : String → ℕ) → decrement method (increment method gauge) m ≡ gauge m
up_and_down method m gauge = ground arith

-- The duration of the call was observed if it returned.
abbrev pub IsTimed : {A : Type 0} → String → ℕ → Result A → Durations → Durations → Type 0
IsTimed method d panic durations durations' = durations' ≡ durations
IsTimed method d (ok a) durations durations' = durations' ≡ observe method d durations
IsTimed method d (err e) durations durations' = durations' ≡ observe method d durations

timed-IsTimed :
    {A : Type 0} (method : String) (d : ℕ) (r : Result A) (durations : Durations)
    → IsTimed method d r durations (timed method d r durations)
timed-IsTimed method d (ok a) durations = refl
timed-IsTimed method d (err e) durations = refl
timed-IsTimed method d panic durations = refl

-- The interceptor changes neither the answer of a handler nor what the handler does to the world; the
-- number of calls in flight is the one of before, of every method; and the call is counted and timed
-- once.
new_metrics_interceptor_lem :
    {S A : Type 0} (full_method m : String) (handler : Action S A) (s : Served S)
    → let (r, s') = new_metrics_interceptor full_method handler s in
      (r ≡ (handler s.world).0)
      × (s'.world ≡ (handler s.world).1)
      × (s'.in_flight m ≡ s.in_flight m)
      × IsCounted (short_method full_method) r s.total s'.total
      × IsTimed
          (short_method full_method)
          (s.clock s'.world - s.clock s.world)
          r
          s.durations
          s'.durations
unfolding new_metrics_interceptor
new_metrics_interceptor_lem full_method m handler s = (
  refl,
  refl,
  up_and_down (short_method full_method) m s.in_flight,
  counted-IsCounted (short_method full_method) (handler s.world).0 s.total,
  timed-IsTimed (short_method full_method) _ (handler s.world).0 s.durations,
)

-- The entry that tells of a request, and no more.
abbrev pub arrival : {S : Type 0} → Output S → String → String → Entry
arrival out method id = record {
  severity = informs;
  fields =
      (method_key, method)
      ∷ (if str_eq id "" then out.fields else (correlation_id_key, id) ∷ out.fields);
  execution_time_ms = none;
  error = none;
}

-- After the call was logged: one entry more, of its severity, with the time that it took and the
-- error that it gave, and none for a panic.
abbrev pub IsConcluded : {S A : Type 0} → Output S → ℕ → Result A → S → S → Type 0
IsConcluded out elapsed panic s s' = s' ≡ s
IsConcluded out elapsed (ok a) s s' =
    (fields : StringMap) × (s'
      ≡ out.write
          (record {
            severity = informs;
            fields = fields;
            execution_time_ms = some elapsed;
            error = none;
          })
          s)
IsConcluded out elapsed (err e) s s' =
    (fields : StringMap) × (s'
      ≡ out.write
          (record {
            severity = reports_error;
            fields = fields;
            execution_time_ms = some elapsed;
            error = some e;
          })
          s)

log_outcome-IsConcluded :
    {S A : Type 0} (out : Output S) (req : Request) (text : A → Option String) (fields : StringMap)
    (elapsed : ℕ) (r : Result A) (s : S)
    → IsConcluded out elapsed r s (log_outcome out req text fields elapsed r s)
unfolding log_outcome
log_outcome-IsConcluded out req text fields elapsed (ok a) s = (_, refl)
log_outcome-IsConcluded out req text fields elapsed (err e) s = (_, refl)
log_outcome-IsConcluded out req text fields elapsed panic s = refl

-- A call that goes through both interceptors, once its correlation id is known: one entry with the
-- method and the id, if that is not empty, tells of it; the handler is called then, under that id and the method, and the
-- answer is the handler's; if it returned, one entry more tells how long it took, and the error that
-- it gave. The numbers of calls in flight are as before. A call that returned is counted once, under
-- "OK" or the code of its error, and the time from its start to its end is observed once; a panic is
-- neither counted nor timed.
pub intercept_lem :
    {S A : Type 0} (random : Random S) (out : Output S) (req : Request) (text : A → Option String)
    (full_method m id : String) (handler : Context → Action S A) (ctx : Context) (s : Served S)
    (t : S)
    → assign_id random req.publish_context s.world ≡ (ok id, t)
    → let (r, s') = intercept random out req text full_method handler ctx s in
      let u = out.write (arrival out full_method id) t in
      let (r', v) =
        handler (record { correlation_id = some id; called_method = some full_method }) u in
      (r ≡ r')
      × IsConcluded out (out.now v - out.now u) r' v s'.world
      × (s'.in_flight m ≡ s.in_flight m)
      × IsCounted (short_method full_method) r s.total s'.total
      × IsTimed
          (short_method full_method)
          (s.clock s'.world - s.clock s.world)
          r
          s.durations
          s'.durations
unfolding intercept new_middleware logged_call opened with_server_context
intercept_lem {S = S} random out req text full_method m id handler ctx s t assigned =
    let under : Context = record { correlation_id = some id; called_method = some full_method } in
    let call = new_middleware random out req text full_method handler ctx in
    let (_, _, flight, counts, times) = new_metrics_interceptor_lem full_method m call s in
    let same : call s.world ≡ logged_call out req text handler under t =
      ap
        (λ (z : Result String × S).
          ((λ (v : S). z) >>= λ id'.
          logged_call out req text handler
            (record { correlation_id = some id'; called_method = some full_method }))
            s.world)
        assigned in
    let u = opened out under t in
    let (r', v) = handler under u in
    (
      ap (λ z. z.0) same,
      subst (IsConcluded out (out.now v - out.now u) r' v) (sym (ap (λ z. z.1) same)) (
          log_outcome-IsConcluded out req text (with_server_context under out.fields)
            (out.now v - out.now u) r' v),
      flight,
      counts,
      times,
    )
