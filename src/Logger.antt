-- ===== src/Logger.antt =====
-- The logger and the interceptor that logs and correlates the calls (internal/logger/logger.go). An
-- entry has the fields that the code sets; its message is left out. Writing it and the clock are
-- parameters.
pub mod Correlation
pub mod Discreet
use upcloud_csi.Base.{
  ℕ, ◌/◌, ◌%◌, ◌-◌, ltb, Bool, not, ◌&&◌, Option, none, some, List, [], ◌∷◌, String, StringMap,
  index, str_eq, if◌then◌else◌,
}
use upcloud_csi.Go.{Action, Error, Result, ok, err, panic, pure, catch, ◌>>=◌}
use upcloud_csi.Controller.Rpc.{ctx_correlation_id_key}
use Prim.Native.Char.{Char}
use Prim.Native.String.{char_at}

-- The values of the context that the driver sets and reads.
pub record Context : Type 0 where
  pub correlation_id : Option String
  pub called_method : Option String

abbrev pub correlation_id_key : String
correlation_id_key = "correlation_id"

abbrev pub method_key : String
method_key = "method"

unfoldable pub context_correlation_id : Context → String
context_correlation_id ctx = elim ctx.correlation_id [ none ↦ "" | some v ↦ v ]

-- The fields of an entry, the last one that was set first.
unfoldable pub with_server_context : Context → StringMap → StringMap
unfolding context_correlation_id
with_server_context ctx fields =
    let id = context_correlation_id ctx in
    let fields' = if str_eq id "" then fields else (correlation_id_key, id) ∷ fields in
    elim ctx.called_method [ none ↦ fields' | some v ↦ (method_key, v) ∷ fields' ]

unfoldable pub contextual_publisher_correlation_id : StringMap → String
contextual_publisher_correlation_id publish_context = index publish_context ctx_correlation_id_key

-- `hex.EncodeToString`
abbrev pub hex : List ℕ → String
hex [] = ""
hex (b ∷ bs) =
    String.◌∷◌ (char_at "0123456789abcdef" (b / 16))
      (String.◌∷◌ (char_at "0123456789abcdef" (b % 16)) (hex bs))

-- Random bytes and a random UUID, from third-party packages and the operating system.
pub record Random (S : Type 0) : Type 0 where
  pub read_bytes : ℕ → Action S (List ℕ)
  pub new_uuid : Action S String

abbrev pub request_key : String
request_key = "request"

abbrev pub response_key : String
response_key = "response"

-- The texts of `fmt.Stringer`.
unfoldable pub with_request : StringMap → String → StringMap
with_request fields r = (request_key, r) ∷ fields

unfoldable pub with_response : StringMap → String → StringMap
with_response fields r = (response_key, r) ∷ fields

abbrev pub service_url_key : String
service_url_key = "service_url"

abbrev pub service_payload_key : String
service_payload_key = "service_payload"

-- The URL of a request to the API, and the text of the request.
unfoldable pub with_service_request : StringMap → String → String → StringMap
with_service_request fields url payload =
    (service_url_key, url) ∷ (service_payload_key, payload) ∷ fields

-- The levels of logrus are numbers, the more verbose the larger.
abbrev pub info_level : ℕ
info_level = 4

abbrev pub debug_level : ℕ
debug_level = 5

pub record Logger : Type 0 where
  pub level : ℕ
  -- That the warning about a level higher than info was written.
  pub warned : Bool

-- `logrus.ParseLevel` is third-party code; the end of the process (`log.Fatal`) is a panic of the model.
abbrev pub at_level : Result ℕ → Result Logger
at_level (ok lv) = ok (record { level = lv; warned = ltb info_level lv })
at_level (err e) = panic
at_level panic = panic

unfoldable pub new_logger : (String → Result ℕ) → String → Result Logger
new_logger parse_level log_level = at_level (parse_level log_level)

pub data Severity : Type 0 where
  informs reports_error : Severity

pub record Entry : Type 0 where
  pub severity : Severity
  pub fields : StringMap
  pub execution_time_ms : Option ℕ
  pub error : Option Error

-- The entry that the middleware is given: its level and fields, what writes it, and the clock in
-- milliseconds.
pub record Output (S : Type 0) : Type 0 where
  pub level : ℕ
  pub fields : StringMap
  pub write : Entry → S → S
  pub now : S → ℕ

-- A request, or a response, as far as the middleware reads it: the publish context, if its type has
-- one, and the text, if it is a `fmt.Stringer`.
pub record Request : Type 0 where
  pub publish_context : Option StringMap
  pub text : Option String

abbrev pub show_if : Bool → (StringMap → String → StringMap) → Option String → StringMap → StringMap
show_if shows with (some x) fields = if shows then with fields x else fields
show_if shows with none fields = fields

-- Objects are logged only if we are debugging.
abbrev pub debugging : {S : Type 0} → Output S → Bool
debugging out = not (ltb out.level debug_level)

-- After the entry that tells of the request was written.
unfoldable pub opened : {S : Type 0} → Output S → Context → S → S
unfolding with_server_context
opened out ctx = out.write (record {
  severity = informs;
  fields = with_server_context ctx out.fields;
  execution_time_ms = none;
  error = none;
})

module _ {S A : Type 0} (out : Output S) where
  -- What is written when the call is over; a panic passes it by.
  unfoldable pub log_outcome : Request → (A → Option String) → StringMap → ℕ → Result A → S → S
  unfolding with_request with_response
  log_outcome req text fields elapsed (ok resp) s =
      out.write
        (record {
          severity = informs;
          fields = show_if (debugging out) with_response (text resp) fields;
          execution_time_ms = some elapsed;
          error = none;
        })
        s
  log_outcome req text fields elapsed (err e) s =
      out.write
        (record {
          severity = reports_error;
          fields = show_if (debugging out) with_request req.text fields;
          execution_time_ms = some elapsed;
          error = some e;
        })
        s
  log_outcome req text fields elapsed panic s = s

  -- The call under its context, between its two entries.
  unfoldable pub logged_call :
      Request → (A → Option String) → (Context → Action S A) → Context → Action S A
  unfolding with_server_context log_outcome opened
  logged_call req text handler ctx s =
      let fields = with_server_context ctx out.fields in
      let t = opened out ctx s in
      let (r, s') = handler ctx t in (r, log_outcome req text fields (out.now s' - out.now t) r s')

-- The id that a request brings along, "" for one without a publish context.
abbrev pub given_id : Option StringMap → String
given_id none = ""
given_id (some publish_context) = contextual_publisher_correlation_id publish_context

module _ {S : Type 0} (random : Random S) where
  unfoldable pub new_correlation_id : Action S String
  new_correlation_id = catch (random.read_bytes 6 >>= λ b. pure (hex b)) (λ e. random.new_uuid)

  unfoldable pub assign_id : Option StringMap → Action S String
  unfolding new_correlation_id contextual_publisher_correlation_id
  assign_id publish_context =
      if str_eq (given_id publish_context) ""
      then new_correlation_id
      else pure (given_id publish_context)

  -- The interceptor: the request, the text of a response, the method, the handler, and the context of
  -- the call.
  unfoldable pub new_middleware :
      {A : Type 0}
      → Output S
      → Request
      → (A → Option String)
      → String
      → (Context → Action S A)
      → Context
      → Action S A
  unfolding assign_id logged_call
  new_middleware out req text full_method handler ctx = do
    tx_id ← assign_id req.publish_context
    logged_call out req text handler
        (record ctx { correlation_id = some tx_id; called_method = some full_method })
