-- ===== src/RedisCache/Heartbeat.antt =====
-- The delays of the heartbeat.
use ara_nes_lms_core.Base.{ℕ, zero, suc, ◌-◌, ◌≤◌, ◌<◌, List, [], ◌∷◌, arith, length}
use Prim.Native.Nat.{min}
use ara_nes_lms_core.RedisCache.{item_at, resolve_heartbeat_delay}

-- Each delay of the schedule is at least the one before it.
abbrev pub IsRising : List ℕ → Type 0
IsRising [] = Unit
IsRising (d ∷ []) = Unit
IsRising (d ∷ e ∷ ds) = (d ≤ e) × IsRising (e ∷ ds)

item_at-le :
    (schedule : List ℕ)
    → IsRising schedule
    → (i j : ℕ) → i ≤ j
    → j < length schedule
    → item_at schedule i ≤ item_at schedule j
item_at-le [] h i j le lt = absurd (omega arith)
item_at-le (d ∷ []) h zero zero le lt = omega arith
item_at-le (d ∷ []) h i (suc j) le lt = absurd (omega arith)
item_at-le (d ∷ []) h (suc i) zero le lt = absurd (omega arith)
item_at-le (d ∷ e ∷ ds) h zero zero le lt = omega arith
item_at-le (d ∷ e ∷ ds) h (suc i) zero le lt = absurd (omega arith)
item_at-le (d ∷ e ∷ ds) h zero (suc j) le lt =
    omega (arith, item_at-le (e ∷ ds) h.1 zero j (omega arith) (omega arith))
item_at-le (d ∷ e ∷ ds) h (suc i) (suc j) le lt =
    item_at-le (e ∷ ds) h.1 i j (omega arith) (omega arith)

-- With a schedule that rises, more failures in a row never make the delay shorter.
pub resolve_heartbeat_delay_mono :
    (schedule : List ℕ)
    → IsRising schedule
    → (m n : ℕ) → m ≤ n
    → resolve_heartbeat_delay schedule m ≤ resolve_heartbeat_delay schedule n
unfolding resolve_heartbeat_delay
resolve_heartbeat_delay_mono [] h m n le = omega arith
resolve_heartbeat_delay_mono (d ∷ ds) h m n le =
    item_at-le (d ∷ ds) h (min (m - 1) (length (d ∷ ds) - 1)) (min (n - 1) (length (d ∷ ds) - 1))
      (omega arith) (omega arith)
