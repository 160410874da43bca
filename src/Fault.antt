-- ===== src/Fault.antt =====
-- src/fault/faultLab.ts: the configuration of the simulated failures, its file, and the choice of a
-- failure. A double is the fraction that it is, and the product of a draw with an integer, which the
-- machine rounds, is a parameter; a number of a JSON document is a natural or one that no field
-- accepts.
pub mod Bounds
pub mod Choice
mod Tests
use ghostapi.Common.{
  ℕ, ◌+◌, ◌-◌, ◌*◌, ◌/◌, Text, lit, Bool, true, false, ◌&&◌, ◌||◌, Host, ltb, ◌==◌, ◌++◌, Option,
  none, some, Result, ok, err, Failure, fail, ◌>>=◌, if◌then◌else◌,
}
use ghostapi.Common.Action.{Op}

pub data StatusCode : Type 0 where
  too_many_requests internal_error bad_gateway unavailable : StatusCode

unfoldable pub status_number : StatusCode → ℕ
status_number too_many_requests = 429
status_number internal_error = 500
status_number bad_gateway = 502
status_number unavailable = 503

pub record Config : Type 0 where
  pub enabled : Bool
  pub latency_ms : ℕ
  pub latency_min_ms : ℕ
  pub latency_max_ms : ℕ
  pub error_rate : ℕ
  pub status_code : StatusCode
  pub retry_after_seconds : ℕ

-- A field of a parsed document; `other` is every value that is neither a Boolean nor a natural.
pub data Value : Type 0 where
  missing other : Value
  boolean : Bool → Value
  number : ℕ → Value

pub record Fields : Type 0 where
  pub enabled : Value
  pub latency_ms : Value
  pub latency_min_ms : Value
  pub latency_max_ms : Value
  pub error_rate : Value
  pub status_code : Value
  pub retry_after_seconds : Value

-- A parsed document: an object, or anything else.
pub data Document : Type 0 where
  object : Fields → Document
  no_object : Document

-- The file: there is none, `JSON.parse` throws on it, or it holds a document.
pub data File : Type 0 where
  absent malformed : File
  holds : Document → File

-- A double that is not negative, a draw of `Math.random` or a product: numerator and denominator.
pub record Double : Type 0 where
  pub part : ℕ
  pub whole : ℕ

-- The `code` of an error's details.
pub data ErrorCode : Type 0 where
  named : Text → ErrorCode
  numbered : ℕ → ErrorCode

-- `ProviderErrorDetails`
pub record Details : Type 0 where
  pub status : ℕ
  pub message : Text
  pub kind : Text
  pub code : ErrorCode

-- A failure has its latency, status, retry time and body.
pub data Decision (Body : Type 0) : Type 0 where
  off : Decision Body
  delay : ℕ → Decision Body
  failure : ℕ → StatusCode → ℕ → Body → Decision Body

abbrev pub default_config : Config
default_config = record {
  enabled = false;
  latency_ms = 0;
  latency_min_ms = 2_000;
  latency_max_ms = 5_000;
  error_rate = 15;
  status_code = too_many_requests;
  retry_after_seconds = 2;
}

unfoldable pub read_boolean : Value → Bool → Bool
read_boolean (boolean b) fallback = b
read_boolean _ fallback = fallback

bad_status : Text
bad_status = lit "Fault Lab statusCode must be one of 429, 500, 502, or 503."

unfoldable pub read_status_code : Value → StatusCode → Result StatusCode
unfolding bad_status
read_status_code missing fallback = ok fallback
read_status_code (number n) fallback =
    if n == 429
    then ok too_many_requests
    else (if n == 500
        then ok internal_error
        else (if n == 502
            then ok bad_gateway
            else (if n == 503 then ok unavailable else fail bad_status)))
read_status_code _ fallback = fail bad_status

unfoldable pub validate_config : Config → Result Config
validate_config c =
    if ltb c.latency_max_ms c.latency_min_ms
    then fail (lit "Fault Lab latencyMaxMs must be greater than or equal to latencyMinMs.")
    else ok c

-- A configuration as the document that is written.
unfoldable pub to_fields : Config → Fields
to_fields c = record {
  enabled = boolean c.enabled;
  latency_ms = number c.latency_ms;
  latency_min_ms = number c.latency_min_ms;
  latency_max_ms = number c.latency_max_ms;
  error_rate = number c.error_rate;
  status_code = number (status_number c.status_code);
  retry_after_seconds = number c.retry_after_seconds;
}

unfoldable pub to_document : Config → Document
unfolding to_fields
to_document c = object (to_fields c)

unfoldable pub reset_fault_lab : File → File
reset_fault_lab file = holds (to_document default_config)

unfoldable pub status_text : StatusCode → Text
status_text too_many_requests = lit "429"
status_text internal_error = lit "500"
status_text bad_gateway = lit "502"
status_text unavailable = lit "503"

unfoldable pub create_fault_details : StatusCode → Details
unfolding status_text
create_fault_details code = elim (status_number code == 429) [
  | true ↦ record {
    status = 429;
    message = lit "Chaos Mode simulated rate limit. Please retry later.";
    kind = lit "rate_limit_error";
    code = named (lit "rate_limit");
  }
  | false ↦ record {
    status = status_number code;
    message = lit "Chaos Mode simulated upstream " ++ status_text code ++ lit " response.";
    kind = lit "api_error";
    code = numbered (status_number code);
  }
]

-- `Math.round`
unfoldable pub round : Double → ℕ
round d = (2 * d.part + d.whole) / (2 * d.whole)

-- `times` is the product of a double and an integer.
unfoldable pub pick_latency : (Double → ℕ → Double) → Config → Double → ℕ
unfolding round
pick_latency times c d =
    if ltb 0 c.latency_ms
    then c.latency_ms
    else c.latency_min_ms + round (times d (c.latency_max_ms - c.latency_min_ms))

module _ (host : Host) where
  unfoldable pub integer_message : ℕ → ℕ → Text
  integer_message min max =
      lit "Expected integer between "
      ++ host.decimal min
      ++ lit " and "
      ++ host.decimal max
      ++ lit "."

  unfoldable pub read_integer : Value → ℕ → ℕ → ℕ → Result ℕ
  read_integer missing fallback min max = ok fallback
  read_integer (number n) fallback min max =
      if ltb n min || ltb max n then fail (integer_message min max) else ok n
  read_integer _ fallback min max = fail (integer_message min max)

  -- The fields over those of a configuration, as `updateFaultLabConfig` and `sanitizeConfig` read them.
  unfoldable pub merge_config : Fields → Config → Result Config
  merge_config given current = do
    latency_ms ← read_integer given.latency_ms current.latency_ms 0 10_000
    latency_min_ms ← read_integer given.latency_min_ms current.latency_min_ms 0 10_000
    latency_max_ms ← read_integer given.latency_max_ms current.latency_max_ms 0 10_000
    error_rate ← read_integer given.error_rate current.error_rate 0 100
    status_code ← read_status_code given.status_code current.status_code
    retry_after_seconds ← read_integer given.retry_after_seconds current.retry_after_seconds 0 120
    validate_config (record {
      enabled = read_boolean given.enabled current.enabled;
      latency_ms = latency_ms;
      latency_min_ms = latency_min_ms;
      latency_max_ms = latency_max_ms;
      error_rate = error_rate;
      status_code = status_code;
      retry_after_seconds = retry_after_seconds;
    })

  unfoldable pub sanitize_config : Document → Config
  sanitize_config no_object = default_config
  sanitize_config (object given) = elim (merge_config given default_config) [
    | ok config ↦ config
    | err _ ↦ default_config
  ]

  -- `readJsonFile`: the error of `JSON.parse` is passed on.
  unfoldable pub read_json_file : File → Result Config
  read_json_file absent = ok default_config
  read_json_file malformed = fail (lit "SyntaxError")
  read_json_file (holds document) = ok (sanitize_config document)

  -- `readPersistedConfig` and `getFaultLabConfig`; the one error is that of `JSON.parse`.
  unfoldable pub read_persisted_config : File → Config
  read_persisted_config file = elim (read_json_file file) [
    | ok config ↦ config
    | err _ ↦ default_config
  ]

  unfoldable pub initialize_fault_lab : File → File
  initialize_fault_lab file = holds (to_document (read_persisted_config file))

  unfoldable pub update_fault_lab_config : Document → Op File Config
  update_fault_lab_config no_object file =
      (fail (lit "Fault Lab config must be a JSON object."), file)
  update_fault_lab_config (object given) file = elim (read_json_file file >>= merge_config given) [
    | ok next ↦ (ok next, holds (to_document next))
    | err e ↦ (err e, file)
  ]

  -- The draws of one call stand in the order in which it makes them; `format_error` is
  -- `createProviderError` for the provider, that is `formatError` of its adapter.
  unfoldable pub decide_fault :
      {Body : Type 0}
      → (Double → ℕ → Double)
      → (Details → Body)
      → File
      → Double
      → Double
      → Double
      → Decision Body
  decide_fault times format_error file first second third =
      let config = read_persisted_config file in
      let chance = times first 100 in
      let action = times second 3 in
      if config.enabled
      then (if ltb 0 config.error_rate && ltb chance.part (config.error_rate * chance.whole)
          then (if action.part / action.whole == 2
              then delay (pick_latency times config third)
              else failure config.latency_ms config.status_code config.retry_after_seconds
                  (format_error (create_fault_details config.status_code)))
          else off)
      else off
