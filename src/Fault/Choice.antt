-- ===== src/Fault/Choice.antt =====
-- What the fault lab decides on.
use native.Mathlib.Nat.{div-lt_iff_lt-mul, mul_comm, mul_left_comm, add-mul, one-mul}
use ghostapi.Common.{ℕ, ◌≤◌, ◌<◌, ◌+◌, ◌*◌, ◌-◌, ◌≡◌, refl, Host, arith}
use ghostapi.Fault.{
  Config, StatusCode, too_many_requests, internal_error, bad_gateway, unavailable, status_number,
  create_fault_details, File, Double, Details, Decision, off, delay, failure, round, pick_latency,
  decide_fault, read_persisted_config,
}
use ghostapi.Fault.Bounds.{IsValid, read_persisted_config-IsValid}

-- What a rounded product of a draw below one promises: it is a number, and the integer at most.
abbrev pub IsRounded : (Double → ℕ → Double) → Type 0
IsRounded times =
    (d : Double) (n : ℕ)
    → d.part < d.whole
    → (0 < (times d n).whole) × ((times d n).part ≤ (times d n).whole * n)

scaled : (n w : ℕ) → (1 + n) * (2 * w) ≡ 2 * (w * n) + 2 * w
scaled n w = omega (arith, add-mul 1 n (2 * w), mul_left_comm n 2 w, mul_comm n w, one-mul (2 * w))

-- A double that is an integer at most rounds to that at most.
round-le : (d : Double) (n : ℕ) → 0 < d.whole → d.part ≤ d.whole * n → round d ≤ n
unfolding round
round-le d n wide h =
    let total : 2 * d.part + d.whole < (1 + n) * (2 * d.whole) =
      omega (arith, h, wide, scaled n d.whole) in
    let below =
      div-lt_iff_lt-mul {k = 2 * d.whole} {x = 2 * d.part + d.whole} {y = 1 + n}
        (omega (arith, wide)) in
    omega (arith, below.1 total)

pick_latency-le :
    (times : Double → ℕ → Double) (c : Config) (d : Double)
    → IsRounded times
    → IsValid c
    → d.part < d.whole
    → (pick_latency times c d ≤ 10_000)
      × (c.latency_ms ≡ 0
          → (c.latency_min_ms ≤ pick_latency times c d)
            × (pick_latency times c d ≤ c.latency_max_ms))
unfolding pick_latency
pick_latency-le times c d rounded v h =
    let range = c.latency_max_ms - c.latency_min_ms in
    let (wide, most) = rounded d range h in
    ground
      (arith, v.latency, v.latency_min, v.latency_max, round-le (times d range) range wide most)

details-status : (code : StatusCode) → (create_fault_details code).status ≡ status_number code
unfolding create_fault_details status_number
details-status too_many_requests = refl
details-status internal_error = refl
details-status bad_gateway = refl
details-status unavailable = refl

-- The bounds of a decision: a delay is in the range of the configuration unless that has a fixed
-- latency; a failure has the configured status, and its body is made of details with that status.
abbrev pub IsBounded : {Body : Type 0} → (Details → Body) → Config → Decision Body → Type 0
IsBounded format_error c off = Unit
IsBounded format_error c (delay n) =
    (n ≤ 10_000) × (c.latency_ms ≡ 0 → (c.latency_min_ms ≤ n) × (n ≤ c.latency_max_ms))
IsBounded format_error c (failure n code retry body) =
    (n ≤ 10_000)
    × (code ≡ c.status_code)
    × (retry ≤ 120)
    × ((d : Details) × (body ≡ format_error d) × (d.status ≡ status_number code))

-- Whatever the file holds, a decision on draws below one is bounded, if the product of such a draw
-- and an integer rounds to that integer at most: a delay is at most ten seconds, and between the
-- least and the greatest latency unless a fixed one is configured; a failure has the configured
-- status, a body that the provider makes of details with that status, at most ten seconds of latency
-- and at most two minutes of retry time.
pub decide_fault-IsBounded :
    {Body : Type 0} (host : Host) (times : Double → ℕ → Double) (format_error : Details → Body)
    (file : File) (first second third : Double)
    → IsRounded times
    → third.part < third.whole
    → IsBounded format_error
        (read_persisted_config host file)
        (decide_fault host times format_error file first second third)
unfolding decide_fault
decide_fault-IsBounded host times format_error file first second third rounded h =
    let c = read_persisted_config host file in
    let v = read_persisted_config-IsValid host file in
    let picked = pick_latency-le times c third rounded v h in
    let details = create_fault_details c.status_code in
    let made : (d : Details) × (format_error details ≡ format_error d)
        × (d.status ≡ status_number c.status_code) =
      (details, refl, details-status c.status_code) in
    ground (arith, v.latency, v.retry, picked, made)
