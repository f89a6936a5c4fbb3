-- ===== src/Gateway/Ports.antt =====
-- `allocate_free_port` of gateway_server/gateway.py. Whether the system lets a port be bound is a
-- parameter.
use mathlib.Core.Path.{subst}
use ara_nes_lms_core.Base.{
  sym, ℕ, zero, suc, ◌+◌, ◌-◌, ◌≤◌, ◌<◌, ltb, if◌then◌else◌, ◌≡◌, refl, arith, inl, inr, ◌⊎◌,
}

abbrev pub start_port : ℕ
start_port = 10000

-- What `bind` does: it returns, raises `OSError`, or raises something else (`OverflowError` for a
-- number that is no port).
pub data Bind : Type 0 where
  bound os_error other_error : Bind

pub data Allocation : Type 0 where
  allocated : ℕ → Allocation
  no_free_port bind_raised out_of_fuel : Allocation

Bind-cases : (b : Bind) → (b ≡ bound) ⊎ ((b ≡ os_error) ⊎ (b ≡ other_error))
Bind-cases bound = inl refl
Bind-cases os_error = inr (inl refl)
Bind-cases other_error = inr (inr refl)

≤-cases : (port q : ℕ) → port ≤ q → (port ≡ q) ⊎ (port + 1 ≤ q)
≤-cases port q le = ground arith

last-cases : (port : ℕ) → (65535 ≤ port) ⊎ (port < 65535)
last-cases port = ground arith

-- What holds of a number and, with `P`, of all larger ones, holds from that number on.
extend :
    (P Q : ℕ → Type 0) (port : ℕ)
    → Q port
    → ((q : ℕ) → port + 1 ≤ q → P q → Q q)
    → (q : ℕ) → port ≤ q
    → P q
    → Q q
extend P Q port here above q le p = elim (≤-cases port q le) [
  | inl same ↦ subst Q same here
  | inr lt ↦ above q lt p
]

module _ (bind : ℕ → Bind) where
  -- The loop, for at most `fuel` rounds.
  unfoldable pub probe_from : ℕ → ℕ → Allocation
  probe_from zero port = out_of_fuel
  probe_from (suc fuel) port =
      let next = probe_from fuel (port + 1) in
      elim (bind port) [
        | bound ↦ allocated port
        | os_error ↦ if ltb 65535 (port + 1) then no_free_port else next
        | other_error ↦ bind_raised
      ]

  unfoldable pub allocate_free_port : ℕ → Allocation
  unfolding probe_from
  allocate_free_port start = probe_from (suc (65535 - start)) start

  -- What a result says of the ports tried from `port` on.
  abbrev pub IsFirstFree : ℕ → Allocation → Type 0
  IsFirstFree port (allocated p) =
      (port ≤ p)
      × (bind p ≡ bound)
      × ((q : ℕ) → port ≤ q → q < p → (bind q ≡ os_error) × (q < 65535))
  IsFirstFree port no_free_port = (q : ℕ) → port ≤ q → q ≤ 65535 → bind q ≡ os_error
  IsFirstFree port bind_raised =
      (p : ℕ) × (port ≤ p)
      × (bind p ≡ other_error)
      × ((q : ℕ) → port ≤ q → q < p → bind q ≡ os_error)
  IsFirstFree port out_of_fuel = ⊥

  taken_before :
      (port : ℕ) (a : Allocation)
      → bind port ≡ os_error
      → port < 65535
      → IsFirstFree (port + 1) a
      → IsFirstFree port a
  taken_before port (allocated p) taken small (le, free, before) = (
    omega (arith, le),
    free,
    extend (λ q. q < p) (λ q. (bind q ≡ os_error) × (q < 65535)) port (taken, small) before,
  )
  taken_before port no_free_port taken small before =
      extend (λ q. q ≤ 65535) (λ q. bind q ≡ os_error) port taken before
  taken_before port bind_raised taken small (p, le, odd, before) =
      (p, omega (arith, le), odd, extend (λ q. q < p) (λ q. bind q ≡ os_error) port taken before)
  taken_before port out_of_fuel taken small impossible = impossible

  probe_from-free :
      (fuel port : ℕ) → bind port ≡ bound → probe_from (suc fuel) port ≡ allocated port
  unfolding probe_from
  probe_from-free fuel port free = rw (free, probe_from) refl

  probe_from-odd :
      (fuel port : ℕ) → bind port ≡ other_error → probe_from (suc fuel) port ≡ bind_raised
  unfolding probe_from
  probe_from-odd fuel port odd = rw (odd, probe_from) refl

  probe_from-last :
      (fuel port : ℕ)
      → bind port ≡ os_error
      → 65535 ≤ port
      → probe_from (suc fuel) port ≡ no_free_port
  unfolding probe_from
  probe_from-last fuel port taken last = ground arith

  probe_from-next :
      (fuel port : ℕ)
      → bind port ≡ os_error
      → port < 65535
      → probe_from (suc fuel) port ≡ probe_from fuel (port + 1)
  unfolding probe_from
  probe_from-next fuel port taken small = ground arith

  only_last :
      (port : ℕ)
      → bind port ≡ os_error
      → 65535 ≤ port
      → (q : ℕ) → port ≤ q
      → q ≤ 65535
      → bind q ≡ os_error
  only_last port taken last q le top =
      let same : port ≡ q = omega (arith, le, top, last) in
      subst (λ i. bind i ≡ os_error) same taken

  one_round :
      (fuel port : ℕ)
      → (port < 65535 → IsFirstFree (port + 1) (probe_from fuel (port + 1)))
      → IsFirstFree port (probe_from (suc fuel) port)
  one_round fuel port later = elim (Bind-cases (bind port)) [
    | inl free ↦
        subst (IsFirstFree port) (sym (probe_from-free fuel port free))
          (omega arith, free, λ q le lt. absurd (omega (arith, le, lt)))
    | inr (inr odd) ↦
        subst (IsFirstFree port) (sym (probe_from-odd fuel port odd))
          (port, omega arith, odd, λ q le lt. absurd (omega (arith, le, lt)))
    | inr (inl taken) ↦ elim (last-cases port) [
      | inl last ↦
          subst (IsFirstFree port) (sym (probe_from-last fuel port taken last))
            (only_last port taken last)
      | inr small ↦
          subst (IsFirstFree port) (sym (probe_from-next fuel port taken small))
            (taken_before port _ taken small (later small))
    ]
  ]

  probe_from-IsFirstFree :
      (fuel port : ℕ) → 65535 < port + suc fuel → IsFirstFree port (probe_from (suc fuel) port)
  probe_from-IsFirstFree zero port enough =
      one_round zero port (λ small. absurd (omega (arith, enough, small)))
  probe_from-IsFirstFree (suc fuel) port enough =
      one_round (suc fuel) port
        (λ small. probe_from-IsFirstFree fuel (port + 1) (omega (arith, enough)))

  -- The loop ends, for every start and whatever the system answers, and with the right result: a
  -- port that is free where all before it raised `OSError`; or none, where all up to 65535 did; or
  -- the first other error.
  pub allocate_free_port-IsFirstFree : (start : ℕ) → IsFirstFree start (allocate_free_port start)
  unfolding allocate_free_port
  allocate_free_port-IsFirstFree start = probe_from-IsFirstFree (65535 - start) start (omega arith)
