-- ===== src/Timeout.antt =====
-- timeout.rs: the retry policy of a flight and the idle budget of an outer loop.
use psicose.Prelude.{
  ℕ, zero, suc, ◌+◌, ◌-◌, ◌^◌, ◌≤◌, ◌<◌, ◌≡◌, refl, Option, none, some, min, arith, ltb,
  if◌then◌else◌, Result, ok, err,
}
use psicose.Error.{Error, idle_budget_exhausted}

pub record RetryPolicy : Type 0 where
  pub timeout_ticks : ℕ
  pub max_retries : ℕ

abbrev pub default_policy : RetryPolicy
default_policy = record { timeout_ticks = 1000; max_retries = 5 }

pub record IdleBudget : Type 0 where
  pub limit : Option ℕ
  pub idle : ℕ

unfoldable pub unbounded : IdleBudget
unbounded = record { limit = none; idle = 0 }

unfoldable pub budget : ℕ → IdleBudget
budget max_idle_ticks = record { limit = some max_idle_ticks; idle = 0 }

unfoldable pub reset : IdleBudget → IdleBudget
reset b = record b { idle = 0 }

-- `saturating_add(1)` on a `u32`.
abbrev pub saturating_succ_u32 : ℕ → ℕ
saturating_succ_u32 n = min (n + 1) (2 ^ 32 - 1)

unfoldable pub tick : {E : Type 0} → IdleBudget → IdleBudget × Result (Unit {0}) (Error E)
tick b = elim b.limit [
  | none ↦ (b, ok tt)
  | some limit ↦
      let idle = saturating_succ_u32 b.idle in
      let b' = record b { idle = idle } in
      if ltb limit idle then (b', err idle_budget_exhausted) else (b', ok tt)
]

-- The budget after a number of idle polls in a row, and the last answer.
unfoldable pub ticks : {E : Type 0} → ℕ → IdleBudget → IdleBudget × Result (Unit {0}) (Error E)
ticks zero b = (b, ok tt)
ticks {E} (suc n) b = tick {E = E} (ticks {E = E} n b).0

module _ (E : Type 0) where
  abbrev run : ℕ → IdleBudget → IdleBudget × Result (Unit {0}) (Error E)
  run = ticks

  ticks-idle :
      (n limit : ℕ)
      → n < 2 ^ 32
      → (run n (budget limit)).0 ≡ record { limit = some limit; idle = n }
  unfolding ticks budget
  ticks-idle zero limit h = refl
  ticks-idle (suc n) limit h = rw (ticks-idle n limit (omega arith)) (unfold tick in ground arith)

  -- A budget of `limit` polls, with no progress between them, passes the first `limit` polls and
  -- refuses every later one that a `u32` can count.
  pub ticks-budget :
      (n limit : ℕ)
      → suc n < 2 ^ 32
      → (run (suc n) (budget limit)).1
        ≡ (if ltb limit (suc n) then err idle_budget_exhausted else ok tt)
  unfolding ticks
  ticks-budget n limit h = rw (ticks-idle n limit (omega arith)) (unfold tick in ground arith)

  ticks-max_idle :
      (n : ℕ)
      → ((run n (budget (2 ^ 32 - 1))).0.limit ≡ some (2 ^ 32 - 1))
        × ((run n (budget (2 ^ 32 - 1))).0.idle ≤ 2 ^ 32 - 1)
  unfolding ticks budget tick
  ticks-max_idle zero = (refl, omega arith)
  ticks-max_idle (suc n) = ground (arith, ticks-max_idle n)

  -- A budget of `u32::MAX` polls is never used up: the counter saturates at the limit.
  pub ticks-budget_max : (n : ℕ) → (run n (budget (2 ^ 32 - 1))).1 ≡ ok tt
  unfolding ticks tick
  ticks-budget_max zero = refl
  ticks-budget_max (suc n) = ground (arith, ticks-max_idle n)
