-- ===== src/Gateway/Readiness.antt =====
-- `wait_for_service_ready` of gateway_server/gateway.py. What the loop observes in its rounds, the
-- clock, the process and the answers to its probes, is a parameter.
use ara_nes_lms_core.Base.{
  nat_eq, ℕ, zero, suc, ◌+◌, ◌≤◌, ◌<◌, Bool, true, ◌==◌, ltb, if◌then◌else◌, ◌≡◌, ◌≢◌, ap, ◌∙◌,
  Bool-cases, ==_iff, arith, inl, inr, ◌⊎◌,
}

-- What the request of a round gives: a status code, an `httpx.HTTPError`, or another exception.
pub data Probe : Type 0 where
  status : ℕ → Probe
  http_error other_error : Probe

-- `loop.time()` at the test of the loop, whether `process.poll()` is `None`, and the probe.
pub record Round : Type 0 where
  pub time : ℕ
  pub running : Bool
  pub probe : Probe

pub data Waited : Type 0 where
  -- in which round
  ready : ℕ → Waited
  process_exited timed_out probe_raised out_of_fuel : Waited

module _ (rounds : ℕ → Round) (deadline : ℕ) where
  abbrev after_probe : Probe → ℕ → Waited → Waited
  after_probe (status code) k later = if code == 200 then ready k else later
  after_probe http_error k later = later
  after_probe other_error k later = probe_raised

  -- The loop from round `k` on, for at most `fuel` rounds.
  unfoldable pub wait_from : ℕ → ℕ → Waited
  wait_from zero k = out_of_fuel
  wait_from (suc fuel) k =
      let later = wait_from fuel (suc k) in
      let round = rounds k in
      if ltb round.time deadline
      then (if round.running then after_probe round.probe k later else process_exited)
      else timed_out

-- Times are in units of which a round, with its sleep, takes at least one. `started` is the time
-- before the first round.
unfoldable pub wait_for_service_ready : (ℕ → Round) → ℕ → ℕ → Waited
unfolding wait_from
wait_for_service_ready rounds started timeout_seconds =
    wait_from rounds (started + timeout_seconds) (suc timeout_seconds) 0

abbrev code_of : Probe → ℕ
code_of (status code) = code
code_of _ = 0

Probe-cases : (p : Probe) → (p ≡ status 200) ⊎ (p ≢ status 200)
Probe-cases http_error = inr (λ e. cc)
Probe-cases other_error = inr (λ e. cc)
Probe-cases (status code) = elim (Bool-cases (code == 200)) [
  | inl same ↦ inl (ap status ((==_iff code 200).0 same))
  | inr other ↦ inr (λ e. ground (arith, other, ap code_of e))
]

≤-cases : (k r : ℕ) → k ≤ r → (k ≡ r) ⊎ (suc k ≤ r)
≤-cases k r le = ground arith

-- The clock does not start before `started`, and each round takes time.
pub record IsClock (rounds : ℕ → Round) (started : ℕ) : Type 0 where
  pub first : started ≤ (rounds 0).time
  pub later : (k : ℕ) → (rounds k).time < (rounds (suc k)).time

-- Nothing has gone wrong in round `k`: the time was not over, the process ran, and the probe was
-- answered or failed in HTTP.
abbrev pub IsAlive : (ℕ → Round) → ℕ → ℕ → Type 0
IsAlive rounds deadline k =
    ((rounds k).time < deadline) × ((rounds k).running ≡ true) × ((rounds k).probe ≢ other_error)

module _ (rounds : ℕ → Round) (started : ℕ) (clock : IsClock rounds started) where
  time-le : (k : ℕ) → started + k ≤ (rounds k).time
  time-le zero = omega (arith, clock.first)
  time-le (suc k) = omega (arith, time-le k, clock.later k)

  round-ready :
      (deadline fuel k : ℕ)
      → IsAlive rounds deadline k
      → (rounds k).probe ≡ status 200
      → wait_from rounds deadline (suc fuel) k ≡ ready k
  unfolding wait_from
  round-ready deadline fuel k (early, runs, fine) answered = rw (answered, runs) (ground arith)

  round-later :
      (deadline fuel k : ℕ)
      → IsAlive rounds deadline k
      → (rounds k).probe ≢ status 200
      → wait_from rounds deadline (suc fuel) k ≡ wait_from rounds deadline fuel (suc k)
  unfolding wait_from
  round-later deadline fuel k (early, runs, fine) other = ground arith

  further :
      (k r : ℕ) → k ≤ r → (rounds r).probe ≡ status 200 → (rounds k).probe ≢ status 200 → suc k ≤ r
  further k r le answered other = elim (≤-cases k r le) [
    | inl same ↦ absurd (other (ap (λ i. (rounds i).probe) same ∙ answered))
    | inr lt ↦ lt
  ]

  wait_from-ready :
      (deadline fuel k r : ℕ)
      → k ≤ r
      → r < k + fuel
      → (rounds r).probe ≡ status 200
      → ((j : ℕ) → j ≤ r → IsAlive rounds deadline j)
      → (n : ℕ) × (wait_from rounds deadline fuel k ≡ ready n) × (n ≤ r)
  wait_from-ready deadline zero k r le enough answered alive = absurd (omega (arith, le, enough))
  wait_from-ready deadline (suc fuel) k r le enough answered alive =
      elim (Probe-cases (rounds k).probe) [
        | inl now ↦ (k, round-ready deadline fuel k (alive k le) now, le)
        | inr other ↦
            let (n, e, le') =
              wait_from-ready deadline fuel (suc k) r (further k r le answered other)
                (omega (arith, enough)) answered alive in
            (n, round-later deadline fuel k (alive k le) other ∙ e, le')
      ]

  -- If every round takes time, the process runs, and no request fails but in HTTP, then a service
  -- that answers a probe with status 200 before the deadline is reported as ready, in that round
  -- or before.
  pub wait_for_service_ready-ready :
      (timeout_seconds r : ℕ)
      → (rounds r).probe ≡ status 200
      → ((j : ℕ) → j ≤ r → IsAlive rounds (started + timeout_seconds) j)
      → (n : ℕ) × (wait_for_service_ready rounds started timeout_seconds ≡ ready n) × (n ≤ r)
  unfolding wait_for_service_ready
  wait_for_service_ready-ready timeout r answered alive =
      wait_from-ready (started + timeout) (suc timeout) 0 r (omega arith)
        (omega (arith, time-le r, (alive r (omega arith)).0)) answered alive
