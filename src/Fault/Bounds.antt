-- ===== src/Fault/Bounds.antt =====
-- The bounds of the fault lab's configuration, and its way through the file.
use ghostapi.Common.{
  ℕ, ◌≤◌, ◌≡◌, refl, sym, ap, ◌∙◌, ok, Host, ok_inj, bind-elim, Result-cases, inl, inr, arith,
}
use ghostapi.Fault.{
  Config, StatusCode, too_many_requests, internal_error, bad_gateway, unavailable, status_number,
  Value, missing, number, Fields, Document, object, no_object, File, absent, malformed, holds,
  default_config, read_boolean, read_integer, read_status_code, validate_config, merge_config,
  sanitize_config, read_json_file, read_persisted_config, to_document, to_fields,
  update_fault_lab_config, initialize_fault_lab,
}

-- The bounds of each field.
pub record IsValid (c : Config) : Type 0 where
  pub latency : c.latency_ms ≤ 10_000
  pub latency_min : c.latency_min_ms ≤ c.latency_max_ms
  pub latency_max : c.latency_max_ms ≤ 10_000
  pub rate : c.error_rate ≤ 100
  pub retry : c.retry_after_seconds ≤ 120

default_config-IsValid : IsValid default_config
default_config-IsValid = record {
  latency = omega arith;
  latency_min = omega arith;
  latency_max = omega arith;
  rate = omega arith;
  retry = omega arith;
}

module _ (host : Host) where
  read_integer-le :
      (v : Value) (fallback min max : ℕ) {n : ℕ}
      → fallback ≤ max
      → read_integer host v fallback min max ≡ ok n
      → n ≤ max
  unfolding read_integer
  read_integer-le missing fallback min max small h = ground arith
  read_integer-le (number n) fallback min max small h = ground arith
  read_integer-le _ fallback min max small h = cc

  validate_config-IsValid :
      (c : Config) {d : Config}
      → validate_config c ≡ ok d
      → (d ≡ c) × (c.latency_min_ms ≤ c.latency_max_ms)
  unfolding validate_config
  validate_config-IsValid c h = ground arith

  merge_config-IsValid :
      (given : Fields) (current : Config) {c : Config}
      → IsValid current
      → merge_config host given current ≡ ok c
      → IsValid c
  unfolding merge_config
  merge_config-IsValid given current v h =
      bind-elim (read_integer host given.latency_ms current.latency_ms 0 10_000) _ h
        λ latency e1 h1.
          bind-elim (read_integer host given.latency_min_ms current.latency_min_ms 0 10_000) _ h1
            λ low e2 h2.
              bind-elim (read_integer host given.latency_max_ms current.latency_max_ms 0 10_000) _
                h2
                λ high e3 h3.
                  bind-elim (read_integer host given.error_rate current.error_rate 0 100) _ h3
                    λ rate e4 h4.
                      bind-elim (read_status_code given.status_code current.status_code) _ h4
                        λ code e5 h5.
                          bind-elim
                            (read_integer host given.retry_after_seconds current.retry_after_seconds
                              0 120)
                            _ h5
                            λ retry e6 h6.
                              let (same, order) = validate_config-IsValid _ h6 in
                              rw same (record {
                                latency = read_integer-le given.latency_ms _ _ _ v.latency e1;
                                latency_min = order;
                                latency_max =
                                    read_integer-le given.latency_max_ms _ _ _ v.latency_max e3;
                                rate = read_integer-le given.error_rate _ _ _ v.rate e4;
                                retry = read_integer-le given.retry_after_seconds _ _ _ v.retry e6;
                              })

  sanitize_config-IsValid : (document : Document) → IsValid (sanitize_config host document)
  unfolding sanitize_config
  sanitize_config-IsValid no_object = default_config-IsValid
  sanitize_config-IsValid (object given) =
      elim (Result-cases (merge_config host given default_config)) [
        | inl (c, e) ↦
            rw (e, sanitize_config)
              (merge_config-IsValid given default_config default_config-IsValid e)
        | inr (f, e) ↦ rw (e, sanitize_config) default_config-IsValid
      ]

  -- Whatever the file holds, the configuration that is read from it is in its bounds: the latencies
  -- are at most ten seconds, the least at most the greatest, the rate is a percentage and the retry
  -- time at most two minutes.
  pub read_persisted_config-IsValid : (file : File) → IsValid (read_persisted_config host file)
  unfolding read_persisted_config read_json_file
  read_persisted_config-IsValid absent = default_config-IsValid
  read_persisted_config-IsValid malformed = default_config-IsValid
  read_persisted_config-IsValid (holds document) = sanitize_config-IsValid document

  read_integer-same :
      (n fallback max : ℕ) → n ≤ max → read_integer host (number n) fallback 0 max ≡ ok n
  unfolding read_integer
  read_integer-same n fallback max h = ground arith

  read_status_code-same :
      (code fallback : StatusCode)
      → read_status_code (number (status_number code)) fallback ≡ ok code
  unfolding read_status_code status_number
  read_status_code-same too_many_requests fallback = refl
  read_status_code-same internal_error fallback = refl
  read_status_code-same bad_gateway fallback = refl
  read_status_code-same unavailable fallback = refl

  validate_config-same :
      (c : Config) → c.latency_min_ms ≤ c.latency_max_ms → validate_config c ≡ ok c
  unfolding validate_config
  validate_config-same c h = ground arith

  merge_config-same :
      (c : Config) → IsValid c → merge_config host (to_fields c) default_config ≡ ok c
  unfolding merge_config to_fields read_boolean
  merge_config-same c v =
      let low : c.latency_min_ms ≤ 10_000 = omega (arith, v.latency_min, v.latency_max) in
      rw
        (
          read_integer-same c.latency_ms default_config.latency_ms 10_000 v.latency,
          read_integer-same c.latency_min_ms default_config.latency_min_ms 10_000 low,
          read_integer-same c.latency_max_ms default_config.latency_max_ms 10_000 v.latency_max,
          read_integer-same c.error_rate default_config.error_rate 100 v.rate,
          read_status_code-same c.status_code default_config.status_code,
          read_integer-same c.retry_after_seconds default_config.retry_after_seconds 120 v.retry,
          validate_config-same c v.latency_min,
        )
        refl

  sanitize_config-to_document : (c : Config) → IsValid c → sanitize_config host (to_document c) ≡ c
  unfolding to_document sanitize_config
  sanitize_config-to_document c v = rw (merge_config-same c v, sanitize_config) refl

  read_json_file-IsValid : (file : File) {c : Config} → read_json_file host file ≡ ok c → IsValid c
  unfolding read_json_file
  read_json_file-IsValid absent h = rw (← ok_inj h) default_config-IsValid
  read_json_file-IsValid malformed h = cc
  read_json_file-IsValid (holds document) h = rw (← ok_inj h) (sanitize_config-IsValid document)

  read-written : (c : Config) → IsValid c → read_persisted_config host (holds (to_document c)) ≡ c
  unfolding read_persisted_config read_json_file
  read-written c v = sanitize_config-to_document c v

  -- What an update returns is what is read from the file afterwards, and after the next start too.
  pub update-read :
      (document : Document) (file after : File) {c : Config}
      → update_fault_lab_config host document file ≡ (ok c, after)
      → (read_persisted_config host after ≡ c)
        × (read_persisted_config host (initialize_fault_lab host after) ≡ c)
  unfolding update_fault_lab_config initialize_fault_lab
  update-read no_object file after h = cc
  update-read (object given) file after {c} h = elim (Result-cases (read_json_file host file)) [
    | inr (f, e) ↦ absurd (ground (arith, e))
    | inl (current, e) ↦ elim (Result-cases (merge_config host given current)) [
      | inr (f, k) ↦ absurd (ground (arith, e, k))
      | inl (next, k) ↦
          let valid = merge_config-IsValid given current (read_json_file-IsValid file e) k in
          let same : next ≡ c = ground (arith, e, k) in
          let written : holds (to_document next) ≡ after = ground (arith, e, k) in
          let read = ap (read_persisted_config host) (sym written) ∙ read-written next valid in
          (read ∙ same, rw read (read-written next valid ∙ same))
    ]
  ]
