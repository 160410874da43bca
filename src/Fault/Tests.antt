-- ===== src/Fault/Tests.antt =====
-- The statements about the fault lab at concrete inputs.
use native.Mathlib.Nat.{mul-le-mul_right}
use ghostapi.Common.{ℕ, ◌≡◌, refl, true, Host, arith, ◌∷◌, [], ◌*◌}
use ghostapi.Fault.{
  Config, bad_gateway, missing, boolean, number, Fields, object, holds, default_config,
  read_boolean, read_integer, read_status_code, validate_config, merge_config, sanitize_config,
  read_json_file, read_persisted_config, to_fields, to_document, update_fault_lab_config,
  initialize_fault_lab, Double, decide_fault, status_number,
}
use ghostapi.Fault.Bounds.{IsValid, read_persisted_config-IsValid, update-read}
use ghostapi.Fault.Choice.{IsRounded, IsBounded, decide_fault-IsBounded}

abbrev host : Host
host = record {
  sha256 = λ s. s;
  quote = λ s. s;
  decimal = λ n. n ∷ [];
  iso = λ n. n ∷ [];
  sanitize = λ s. s;
}

-- A document that turns failures on for half of the requests.
abbrev half : Fields
half = record {
  enabled = boolean true;
  latency_ms = missing;
  latency_min_ms = number 100;
  latency_max_ms = number 300;
  error_rate = number 50;
  status_code = number 502;
  retry_after_seconds = missing;
}

abbrev half_config : Config
half_config = record default_config {
  enabled = true;
  latency_min_ms = 100;
  latency_max_ms = 300;
  error_rate = 50;
  status_code = bad_gateway;
}

abbrev draw : ℕ → Double
draw n = record { part = n; whole = 10 }

read_persisted_config-IsValid_example : IsValid (read_persisted_config host (holds (object half)))
read_persisted_config-IsValid_example = read_persisted_config-IsValid host (holds (object half))

update-read_example :
    (read_persisted_config host (holds (to_document half_config)) ≡ half_config)
    × (read_persisted_config host (initialize_fault_lab host (holds (to_document half_config)))
        ≡ half_config)
unfolding update_fault_lab_config read_json_file sanitize_config merge_config read_boolean
    read_integer read_status_code validate_config to_document to_fields status_number
update-read_example =
    update-read host (object half) (holds (to_document default_config))
      (holds (to_document half_config)) refl

-- The exact product.
abbrev times : Double → ℕ → Double
times d n = record { part = d.part * n; whole = d.whole }

times-IsRounded : IsRounded times
times-IsRounded d n h = (omega arith, mul-le-mul_right n (omega (arith, h)))

decide_fault-IsBounded_example :
    IsBounded {Body = ℕ}
      (λ d. d.status)
      (read_persisted_config host (holds (object half)))
      (decide_fault host times (λ d. d.status) (holds (object half)) (draw 2) (draw 8) (draw 9))
decide_fault-IsBounded_example =
    decide_fault-IsBounded host times (λ d. d.status) (holds (object half)) (draw 2) (draw 8)
      (draw 9) times-IsRounded (omega arith)
