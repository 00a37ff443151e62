-- ===== src/Outbox/Timing/Horizon.antt =====
-- The horizon of timing.py bounds every schedule of attempts, if the backoff is not below the least
-- delay of `compute_backoff`; where it is, the bound fails.
use native.Mathlib.Nat.{le_trans, pow-suc, add_assoc}
use favl_agentic_content_os.Prelude.{
  ℕ, zero, suc, ◌+◌, ◌-◌, ◌*◌, ◌^◌, ◌≤◌, ◌<◌, ◌≡◌, refl, ap, ◌∙◌, max, some, List, [], ◌∷◌, arith,
  length,
}
use favl_agentic_content_os.Outbox.Timing.{
  RetryPolicy, OperationalDelays, raw_backoff, backoff_for, per_attempt, add_backoffs,
  worst_case_retry_horizon, validate_duplicate_window, jitter, least_delay, compute_backoff,
}

-- One publish attempt: what it cost outside the backoff, and the jitter drawn after it failed.
pub record Attempt : Type 0 where
  pub cost : ℕ
  pub draw : ℕ

-- The time from the first attempt to the end of the last one, which is attempt number `i` onwards.
abbrev pub span : RetryPolicy → ℕ → List Attempt → ℕ
span p i [] = 0
span p i (x ∷ []) = x.cost * 1000
span p i (x ∷ y ∷ rest) = x.cost * 1000 + compute_backoff p i x.draw + span p (i + 1) (y ∷ rest)

-- The costs keep within the operational delays, the draws within the jitter.
abbrev pub Within : RetryPolicy → OperationalDelays → ℕ → List Attempt → Type 0
Within p d i [] = Unit
Within p d i (x ∷ rest) =
    (x.cost ≤ per_attempt d) × (x.draw ≤ 2 * jitter p i) × Within p d (i + 1) rest

jittered :
    (raw j draw floor : ℕ)
    → draw ≤ 2 * (raw * j)
    → floor ≤ raw * (1000 + j)
    → max floor (raw * 1000 + draw - raw * j) ≤ raw * (1000 + j)
jittered raw j draw floor h f = omega arith

pub compute_backoff-le :
    (p : RetryPolicy) (i draw : ℕ)
    → draw ≤ 2 * jitter p i
    → least_delay ≤ backoff_for p i
    → compute_backoff p i draw ≤ backoff_for p i
unfolding compute_backoff backoff_for
compute_backoff-le p i draw h floor =
    jittered (raw_backoff p i) p.jitter_ratio draw least_delay h floor

scaled : (a b c : ℕ) → a ≤ b → a * c ≤ b * c
scaled a b c h = grind arith

one_le_pow : (k : ℕ) → 1 ≤ 2 ^ k
one_le_pow zero = omega arith
one_le_pow (suc k) = rw pow-suc (omega (arith, one_le_pow k))

raw_least : (p : RetryPolicy) (i : ℕ) → raw_backoff p 1 ≤ raw_backoff p i
raw_least p i =
    let grows : p.base * 1 ≤ p.base * 2 ^ (i - 1) = grind (arith, one_le_pow (i - 1)) in omega arith

-- The first backoff is the least.
backoff_least : (p : RetryPolicy) (i : ℕ) → backoff_for p 1 ≤ backoff_for p i
unfolding backoff_for
backoff_least p i =
    scaled (raw_backoff p 1) (raw_backoff p i) (1000 + p.jitter_ratio) (raw_least p i)

add_backoffs-total :
    (p : RetryPolicy) (i count a b : ℕ)
    → add_backoffs p i count (a + b) ≡ a + add_backoffs p i count b
unfolding add_backoffs
add_backoffs-total p i zero a b = refl
add_backoffs-total p i (suc count) a b =
    rw (add_assoc a b (backoff_for p i))
      (add_backoffs-total p (i + 1) count a (b + backoff_for p i))

-- More attempts, a longer horizon.
add_backoffs_mono :
    (p : RetryPolicy) (i m n a : ℕ) → m ≤ n → add_backoffs p i m a ≤ add_backoffs p i n a
unfolding add_backoffs
add_backoffs_mono p i zero zero a h = omega arith
add_backoffs_mono p i zero (suc n) a h =
    let grown : a ≤ add_backoffs p (i + 1) n (a + backoff_for p i) =
      omega (arith, add_backoffs-total p (i + 1) n a (backoff_for p i)) in
    grown
add_backoffs_mono p i (suc m) zero a h = elim h [ ]
add_backoffs_mono p i (suc m) (suc n) a h =
    add_backoffs_mono p (i + 1) m n (a + backoff_for p i) (omega arith)

span-le :
    (p : RetryPolicy) (d : OperationalDelays) (i : ℕ) (x : Attempt) (xs : List Attempt)
    → least_delay ≤ backoff_for p 1
    → Within p d i (x ∷ xs)
    → span p i (x ∷ xs) ≤ length (x ∷ xs) * (per_attempt d * 1000) + add_backoffs p i (length xs) 0
unfolding add_backoffs
span-le p d i x [] floor w = omega arith
span-le p d i x (y ∷ rest) floor w =
    let enough : least_delay ≤ backoff_for p i = le_trans floor (backoff_least p i) in
    let start : backoff_for p i + 0 ≡ 0 + backoff_for p i = omega arith in
    omega (
      ap (add_backoffs p (i + 1) (length rest)) start,
      arith,
      span-le p d (i + 1) y rest floor w.2,
      compute_backoff-le p i x.draw w.1 enough,
      add_backoffs-total p (i + 1) (length rest) (backoff_for p i) 0,
    )

horizon_lem :
    (p : RetryPolicy) (d : OperationalDelays)
    → worst_case_retry_horizon p d
      ≡ p.max_attempts * (per_attempt d * 1000) + add_backoffs p 1 (p.max_attempts - 1) 0
unfolding worst_case_retry_horizon
horizon_lem p d =
    let total = p.max_attempts * (per_attempt d * 1000) in
    let start : total ≡ total + 0 = omega arith in
    ap (add_backoffs p 1 (p.max_attempts - 1)) start
    ∙ add_backoffs-total p 1 (p.max_attempts - 1) total 0

-- From the first attempt to the end of the last takes no longer than the horizon, for at most
-- `max_attempts` attempts within the operational delays and the jitter, if the first backoff is at
-- least 0.1 seconds.
pub span-le-horizon :
    (p : RetryPolicy) (d : OperationalDelays) (xs : List Attempt)
    → least_delay ≤ backoff_for p 1
    → length xs ≤ p.max_attempts
    → Within p d 1 xs
    → span p 1 xs ≤ worst_case_retry_horizon p d
span-le-horizon p d [] floor n w = omega arith
span-le-horizon p d (x ∷ xs) floor n w = omega (
  arith,
  horizon_lem p d,
  span-le p d 1 x xs floor w,
  add_backoffs_mono p 1 (length xs) (p.max_attempts - 1) 0 (omega arith),
  scaled (suc (length xs)) p.max_attempts (per_attempt d * 1000) n,
)

-- Under a configuration that passes the startup check, with a safety margin of at most one and a first
-- backoff, jitter included, of at least 0.1 seconds: at most `max_attempts` attempts, each within the
-- operational delays and the jitter, end within the duplicate window after the first of them began.
pub span-in-window :
    (p : RetryPolicy) (d : OperationalDelays) (window safety_margin horizon : ℕ) (xs : List Attempt)
    → validate_duplicate_window p d window safety_margin ≡ some horizon
    → safety_margin ≤ 1000
    → least_delay ≤ backoff_for p 1
    → length xs ≤ p.max_attempts
    → Within p d 1 xs
    → span p 1 xs ≤ window * 1000
unfolding validate_duplicate_window
span-in-window p d window safety_margin horizon xs valid margin floor n w =
    let bound : worst_case_retry_horizon p d ≤ window * safety_margin = ground arith in
    let share : window * safety_margin ≤ window * 1000 = grind arith in
    omega (arith, span-le-horizon p d xs floor n w)

-- Where the first backoff, jitter included, is below 0.1 seconds, every delay after the first
-- failure is longer than `backoff_for` says.
pub backoff_for_too_small :
    (p : RetryPolicy) (draw : ℕ)
    → backoff_for p 1 < least_delay
    → backoff_for p 1 < compute_backoff p 1 draw
unfolding compute_backoff
backoff_for_too_small p draw h = omega arith
