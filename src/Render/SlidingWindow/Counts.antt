-- ===== src/Render/SlidingWindow/Counts.antt =====
-- The counters of cui/sliding_window_renderer.c, against numbers of reports.
use whdd_modify.Prelude.{
  ℕ, ◌+◌, ◌<◌, ◌≤◌, ◌^◌, ◌≡◌, refl, ap, ◌∙◌, Bool, false, not, ◌&&◌, List, [], ◌∷◌, ◌++◌, ◌==◌,
  if◌then◌else◌, get_or, length, arith, inl, inr, Bool-cases,
}
use whdd_modify.Prelude.Words.{add64, mul64}
use whdd_modify.Procedure.{BlockReport, failed}
use whdd_modify.ReadTest.Stats.{status_number, tier, increment}
use whdd_modify.ReadTest.Stats.Tiers.{get_or-increment, length-increment}
use whdd_modify.Render.SlidingWindow.{SlidingWindow, render_update_vis}

-- How many reports have a property.
unfoldable pub count_of : (BlockReport → Bool) → List BlockReport → ℕ
count_of test [] = 0
count_of test (r ∷ rs) = (if test r then 1 else 0) + count_of test rs

-- A block that was read in a time of a tier.
abbrev pub in_tier : List ℕ → ℕ → BlockReport → Bool
in_tier thresholds k r = not (failed r.blk_status) && tier r.blk_access_time thresholds == k

-- A block that has an error status.
abbrev pub with_status : ℕ → BlockReport → Bool
with_status k r = failed r.blk_status && status_number r.blk_status == k

-- The bytes of some reports, as a uint64_t.
unfoldable pub bytes_of : ℕ → List BlockReport → ℕ
bytes_of bytes [] = bytes
bytes_of bytes (r ∷ rs) = bytes_of (add64 bytes (mul64 r.sectors_processed 512)) rs

count_of-append :
    (test : BlockReport → Bool) (rs : List BlockReport) (r : BlockReport)
    → count_of test (rs ++ (r ∷ [])) ≡ count_of test rs + (if test r then 1 else 0)
unfolding count_of
count_of-append test [] r = omega arith
count_of-append test (x ∷ rs) r = omega (arith, count_of-append test rs r)

count_of-le : (test : BlockReport → Bool) (rs : List BlockReport) → count_of test rs ≤ length rs
unfolding count_of
count_of-le test [] = omega arith
count_of-le test (r ∷ rs) = ground (arith, count_of-le test rs)

pub bytes_of-append :
    (bytes : ℕ) (rs : List BlockReport) (r : BlockReport)
    → bytes_of bytes (rs ++ (r ∷ [])) ≡ add64 (bytes_of bytes rs) (mul64 r.sectors_processed 512)
unfolding bytes_of
bytes_of-append bytes [] r = refl
bytes_of-append bytes (x ∷ rs) r =
    bytes_of-append (add64 bytes (mul64 x.sectors_processed 512)) rs r

-- The two arrays count some reports.
pub record Counted (w : SlidingWindow) (rs : List BlockReport) : Type 0 where
  pub tiers :
      (k : ℕ)
      → k < 7
      → get_or w.access_time_stats_accum k 0 ≡ count_of (in_tier w.vis_thresholds k) rs
  pub errors : (k : ℕ) → k < 7 → get_or w.error_stats_accum k 0 ≡ count_of (with_status k) rs
  pub nb_tiers : length w.access_time_stats_accum ≡ 7
  pub nb_errors : length w.error_stats_accum ≡ 7

-- One more report
array_counts :
    (test : BlockReport → Bool) (rs : List BlockReport) (r : BlockReport) (i k : ℕ) (xs : List ℕ)
    → k < length xs
    → length rs < 2 ^ 63
    → get_or xs k 0 ≡ count_of test rs
    → test r ≡ (i == k)
    → get_or (increment i xs) k 0 ≡ count_of test (rs ++ (r ∷ []))
array_counts test rs r i k xs l b e t =
    get_or-increment i k xs l (omega (arith, e, count_of-le test rs))
    ∙ (omega (arith, e, ap {B = ℕ} (λ (c : Bool). if c then 1 else 0) t, count_of-append test rs r))

same_counts :
    (test : BlockReport → Bool) (rs : List BlockReport) (r : BlockReport) (n : ℕ)
    → n ≡ count_of test rs
    → test r ≡ false
    → n ≡ count_of test (rs ++ (r ∷ []))
same_counts test rs r n e t =
    omega (arith, e, ap {B = ℕ} (λ (c : Bool). if c then 1 else 0) t, count_of-append test rs r)

pub render_update_vis-Counted :
    (w : SlidingWindow) (rs : List BlockReport) (r : BlockReport)
    → Counted w rs
    → length rs < 2 ^ 63
    → Counted (render_update_vis w r) (rs ++ (r ∷ []))
unfolding render_update_vis
render_update_vis-Counted w rs r c b = elim (Bool-cases (failed r.blk_status)) [
  | inl bad ↦ rw bad (record {
    tiers = λ k l. same_counts (in_tier w.vis_thresholds k) rs r _ (c.tiers k l) (simp (bad) refl);
    errors = λ k l.
        array_counts (with_status k) rs r (status_number r.blk_status) k w.error_stats_accum
          (omega (arith, c.nb_errors)) b (c.errors k l) (simp (bad) refl);
    nb_tiers = c.nb_tiers;
    nb_errors = length-increment _ w.error_stats_accum ∙ c.nb_errors;
  })
  | inr good ↦ rw good (record {
    tiers = λ k l.
        array_counts (in_tier w.vis_thresholds k) rs r (tier r.blk_access_time w.vis_thresholds) k
          w.access_time_stats_accum (omega (arith, c.nb_tiers)) b (c.tiers k l) (simp (good) refl);
    errors = λ k l. same_counts (with_status k) rs r _ (c.errors k l) (simp (good) refl);
    nb_tiers = length-increment _ w.access_time_stats_accum ∙ c.nb_tiers;
    nb_errors = c.nb_errors;
  })
]

-- What the report changes apart from the counters
pub render_update_vis-kept :
    (w : SlidingWindow) (r : BlockReport)
    → ((render_update_vis w r).queue ≡ w.queue)
      × ((render_update_vis w r).vis_thresholds ≡ w.vis_thresholds)
      × ((render_update_vis w r).bytes_processed ≡ w.bytes_processed)
unfolding render_update_vis
render_update_vis-kept w r = elim (Bool-cases (failed r.blk_status)) [
  | inl bad ↦ rw bad (refl, refl, refl)
  | inr good ↦ rw good (refl, refl, refl)
]
