-- ===== src/Scheduler/Limits.antt =====
-- PercentToCap: the caps of a worker pool.
use xrdcl_pelican.Prelude.{ℕ, ◌+◌, ◌*◌, ◌/◌, ◌%◌, ◌^◌, ◌≤◌, ◌<◌, ◌≡◌, ap, false, ◌||◌, arith}
use xrdcl_pelican.Prelude.Tests.{leb, ◌==◌}
use xrdcl_pelican.Prelude.Int.{pos, to_int32}
use xrdcl_pelican.Scheduler.State.{at_least_one, percent_to_cap}

-- The percentage, rounded up to whole workers, by exact arithmetic.
abbrev pub exact_cap : ℕ → ℕ → ℕ
exact_cap workers p = (workers * p + 99) / 100

p-test : (p : ℕ) → 0 < p → p < 100 → (p == 0 || leb 100 p) ≡ false
p-test p h k = ground arith

product-bounds :
    (workers p : ℕ) → 0 < p → p < 100 → (workers ≤ workers * p) × (workers * p ≤ workers * 99)
product-bounds workers p h k = grind arith

to_int32-small : (n : ℕ) → n < 2 ^ 31 → to_int32 n ≡ pos n
to_int32-small n h = ground arith

cap_of_product :
    (workers x : ℕ)
    → 1 ≤ workers
    → workers ≤ 2 ^ 24
    → workers ≤ x
    → x ≤ workers * 99
    → (at_least_one (to_int32 ((x % 2 ^ 32 + 99) % 2 ^ 32 / 100)) ≡ pos ((x + 99) / 100))
      × (1 ≤ (x + 99) / 100)
      × ((x + 99) / 100 ≤ workers)
cap_of_product workers x h k lo hi =
    let wraps : (x % 2 ^ 32 + 99) % 2 ^ 32 / 100 ≡ (x + 99) / 100 = omega arith in
    (
      rw (wraps, to_int32-small ((x + 99) / 100) (omega arith)) (ap pos (omega arith)),
      omega arith,
      omega arith,
    )

-- For a pool of 1 to 2^24 workers and a percentage strictly between 0 and 100 no conversion and no
-- 32-bit product loses anything: the cap is the percentage of the pool rounded up, at least one
-- worker and at most the whole pool.
percent_to_cap_lem :
    (workers p : ℕ)
    → 1 ≤ workers
    → workers ≤ 2 ^ 24
    → 0 < p
    → p < 100
    → (percent_to_cap workers (pos p) ≡ pos (exact_cap workers p))
      × (1 ≤ exact_cap workers p)
      × (exact_cap workers p ≤ workers)
unfolding percent_to_cap
percent_to_cap_lem workers p h k lo hi =
    let (a, b) = product-bounds workers p lo hi in
    let (e, f, g) = cap_of_product workers (workers * p) h k a b in (rw (p-test p lo hi) e, f, g)
