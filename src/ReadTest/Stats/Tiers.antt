-- ===== src/ReadTest/Stats/Tiers.antt =====
-- The accumulators count every block once, in the tier of its access time or under its error.
use whdd_modify.Prelude.{
  ℕ, zero, suc, ◌+◌, ◌-◌, ◌^◌, ◌≤◌, ◌<◌, ◌≡◌, refl, ap, ◌∙◌, inl, inr, true, false, List, [], ◌∷◌,
  length, sum, arith, Bool-cases, ◌↔◌, get_or, not, ◌&&◌, if◌then◌else◌, ◌==◌,
}
use whdd_modify.Procedure.{BlockStatus, BlockReport, failed}
use whdd_modify.ReadTest.Stats.{
  Stats, dc_get_vis_thresholds, status_number, tier, increment, defect_type, accumulate,
}

-- The thresholds ascend.
abbrev pub IsAscending : List ℕ → Type 0
IsAscending [] = Unit {0}
IsAscending (x ∷ []) = Unit {0}
IsAscending (x ∷ y ∷ ys) = (x ≤ y) × IsAscending (y ∷ ys)

sum-increment :
    (i : ℕ) (xs : List ℕ) → i < length xs → sum xs < 2 ^ 64 - 1 → sum (increment i xs) ≡ sum xs + 1
unfolding increment
sum-increment i [] l b = absurd (omega arith)
sum-increment zero (x ∷ xs) l b = omega arith
sum-increment (suc i) (x ∷ xs) l b = omega (arith, sum-increment i xs (omega arith) (omega arith))

pub length-increment : (i : ℕ) (xs : List ℕ) → length (increment i xs) ≡ length xs
unfolding increment
length-increment i [] = refl
length-increment zero (x ∷ xs) = refl
length-increment (suc i) (x ∷ xs) = ap suc (length-increment i xs)

-- What `xs[i]++` does to each element.
pub get_or-increment :
    (i k : ℕ) (xs : List ℕ)
    → k < length xs
    → get_or xs k 0 + 1 < 2 ^ 64
    → get_or (increment i xs) k 0 ≡ get_or xs k 0 + (if i == k then 1 else 0)
unfolding increment
get_or-increment i k [] l b = absurd (omega arith)
get_or-increment zero zero (x ∷ xs) l b = ground arith
get_or-increment zero (suc k) (x ∷ xs) l b = ground arith
get_or-increment (suc i) zero (x ∷ xs) l b = ground arith
get_or-increment (suc i) (suc k) (x ∷ xs) l b =
    ground (arith, get_or-increment i k xs (omega arith) b)

get_or-le : (k : ℕ) (xs : List ℕ) → get_or xs k 0 ≤ sum xs
get_or-le k [] = omega arith
get_or-le zero (x ∷ xs) = omega arith
get_or-le (suc k) (x ∷ xs) = omega (arith, get_or-le k xs)

tier-le : (t : ℕ) (hs : List ℕ) → tier t hs ≤ length hs
unfolding tier
tier-le t [] = omega arith
tier-le t (h ∷ hs) = ground (arith, tier-le t hs)

-- The accumulators of fewer than 2 ^ 63 blocks: every block is counted in one place.
pub record IsCounted (s : Stats) : Type 0 where
  pub tiers : length s.access_time_stats ≡ suc (length s.vis_thresholds)
  pub errors : length s.error_stats ≡ 7
  pub all_blocks : sum s.access_time_stats + sum s.error_stats ≡ s.blocks_processed
  pub bad_blocks : sum s.error_stats ≡ s.blocks_with_errors
  pub small : s.blocks_processed < 2 ^ 63

-- One more block is in its place: in the tier of its access time if it was read, else at its error.
pub record Adds (s : Stats) (r : BlockReport) (t : Stats) : Type 0 where
  pub tiers :
      (k : ℕ)
      → k < length s.access_time_stats
      → get_or t.access_time_stats k 0
        ≡ get_or s.access_time_stats k 0
          + (if not (failed r.blk_status) && tier r.blk_access_time s.vis_thresholds == k
              then 1
              else 0)
  pub errors :
      (k : ℕ)
      → k < 7
      → get_or t.error_stats k 0
        ≡ get_or s.error_stats k 0
          + (if failed r.blk_status && status_number r.blk_status == k then 1 else 0)
  pub blocks : t.blocks_processed ≡ s.blocks_processed + 1
  pub bad : t.blocks_with_errors ≡ s.blocks_with_errors + (if failed r.blk_status then 1 else 0)

-- Where the counters of fewer than 2 ^ 63 - 1 blocks are consistent, they stay so with one more, and
-- this block adds 1 to the blocks and to one counter only: to the tier of its access time if it was
-- read, else to the counter of its error and to the blocks with errors. Consistent: the blocks in
-- the tiers and those with errors are all blocks.
pub accumulate-IsCounted :
    (s : Stats) (r : BlockReport)
    → IsCounted s
    → s.blocks_processed + 1 < 2 ^ 63
    → IsCounted (accumulate s r) × Adds s r (accumulate s r)
unfolding accumulate
accumulate-IsCounted s r c b = elim (Bool-cases (failed r.blk_status)) [
  | inl bad ↦ rw bad (
    record {
      tiers = c.tiers;
      errors = length-increment _ s.error_stats ∙ c.errors;
      all_blocks = omega (arith, added bad, c.all_blocks);
      bad_blocks = omega (arith, added bad, c.bad_blocks, c.all_blocks);
      small = omega arith;
    },
    record {
      tiers = λ k l. simp bad (omega arith);
      errors = λ k l. simp bad (
          get_or-increment (status_number r.blk_status) k s.error_stats (omega (arith, c.errors))
            (omega (arith, get_or-le k s.error_stats, c.all_blocks)));
      blocks = omega arith;
      bad = simp bad (omega (arith, c.bad_blocks, c.all_blocks));
    },
  )
  | inr good ↦ rw good (
    record {
      tiers = length-increment _ s.access_time_stats ∙ c.tiers;
      errors = c.errors;
      all_blocks = omega (arith, timed, c.all_blocks);
      bad_blocks = c.bad_blocks;
      small = omega arith;
    },
    record {
      tiers = λ k l. simp good (
          get_or-increment (tier r.blk_access_time s.vis_thresholds) k s.access_time_stats l
            (omega (arith, get_or-le k s.access_time_stats, c.all_blocks)));
      errors = λ k l. simp good (omega arith);
      blocks = omega arith;
      bad = simp good (omega arith);
    },
  )
]
  where
    number_lt : (b : BlockStatus) → status_number b < 7
    number_lt b = ground arith

    added :
        failed r.blk_status ≡ true
        → sum (increment (status_number r.blk_status) s.error_stats) ≡ sum s.error_stats + 1
    added bad =
        sum-increment (status_number r.blk_status) s.error_stats
          (omega (arith, number_lt r.blk_status, c.errors)) (omega (arith, c.all_blocks, c.small))

    timed :
        sum (increment (tier r.blk_access_time s.vis_thresholds) s.access_time_stats)
        ≡ sum s.access_time_stats + 1
    timed =
        sum-increment (tier r.blk_access_time s.vis_thresholds) s.access_time_stats
          (omega (arith, tier-le r.blk_access_time s.vis_thresholds, c.tiers))
          (omega (arith, c.all_blocks, c.small))

-- With thresholds as `Open` computes them, the two upper tiers of a block that was read are its
-- defect types: severe for the top tier, slow for the one below, none for the others; a block
-- that was not read is damaged.
pub defect_type-tier :
    (sectors_at_once : ℕ) (r : BlockReport)
    → sectors_at_once < 2 ^ 31
    → let hs = dc_get_vis_thresholds sectors_at_once in
      ((defect_type hs r ≡ 2) ↔ (failed r.blk_status ≡ true))
      × (failed r.blk_status ≡ false
          → ((defect_type hs r ≡ 1) ↔ (tier r.blk_access_time hs ≡ 5))
            × ((defect_type hs r ≡ 3) ↔ (tier r.blk_access_time hs ≡ 4)))
unfolding dc_get_vis_thresholds defect_type tier
defect_type-tier sectors_at_once r b = ground arith
