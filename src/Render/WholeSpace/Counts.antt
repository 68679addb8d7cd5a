-- ===== src/Render/WholeSpace/Counts.antt =====
-- What the renderer of cui/whole_space_renderer.c has counted after the reports of a copy.
use whdd_modify.Prelude.{
  ℕ, zero, suc, ◌+◌, ◌/◌, ◌^◌, ◌<◌, ◌≤◌, ◌≡◌, refl, ◌∙◌, ap, List, [], ◌∷◌, inl, inr, arith, ◌==◌,
  if◌then◌else◌, set, get_or, length, length-set, Bool-cases,
}
use whdd_modify.Procedure.{BlockReport}
use whdd_modify.Procedure
use whdd_modify.ReadTest.Stats.{status_number}
use whdd_modify.Render.WholeSpace.{WholeSpace, count_error, update_blocks_info, render_reports}

-- The sectors of some reports, and those that could not be read.
unfoldable pub sectors_of : List BlockReport → ℕ
sectors_of [] = 0
sectors_of (r ∷ rs) = r.sectors_processed + sectors_of rs

pub bad_sectors_of : List BlockReport → ℕ
bad_sectors_of [] = 0
bad_sectors_of (r ∷ rs) =
    (if Procedure.failed r.blk_status then r.sectors_processed else 0) + bad_sectors_of rs

-- The status of a block after some reports: the last one that begins in it decides.
pub status_after : ℕ → ℕ → ℕ → List BlockReport → ℕ
status_after size block s [] = s
status_after size block s (r ∷ rs) =
    status_after size block
      (if r.lba / size == block then if Procedure.failed r.blk_status then 2 else 1 else s) rs

get_or-set :
    (xs : List ℕ) (i j v : ℕ)
    → j < length xs
    → get_or (set xs i v) j 0 ≡ (if i == j then v else get_or xs j 0)
get_or-set [] i j v l = absurd (omega arith)
get_or-set (x ∷ xs) zero zero v l = refl
get_or-set (x ∷ xs) zero (suc j) v l = ground arith
get_or-set (x ∷ xs) (suc i) zero v l = ground arith
get_or-set (x ∷ xs) (suc i) (suc j) v l = ground (arith, get_or-set xs i j v)

-- One report, on the fields that are shown.
record Updated (w : WholeSpace) (r : BlockReport) : Type 0 where
  unread : (update_blocks_info w r).unread_count + r.sectors_processed ≡ w.unread_count
  errors :
      (update_blocks_info w r).errors_count
      ≡ w.errors_count + (if Procedure.failed r.blk_status then r.sectors_processed else 0)
  all :
      (update_blocks_info w r).unread_count
        + (update_blocks_info w r).read_ok_count
        + (update_blocks_info w r).errors_count
      ≡ w.unread_count + w.read_ok_count + w.errors_count
  blocks :
      (update_blocks_info w r).blocks_map
      ≡ set w.blocks_map
          (r.lba / w.sectors_per_block)
          (if Procedure.failed r.blk_status then 2 else 1)
  size : (update_blocks_info w r).sectors_per_block ≡ w.sectors_per_block

count_error-kept :
    (n : ℕ) (w : WholeSpace)
    → ((count_error n w).read_ok_count ≡ w.read_ok_count)
      × ((count_error n w).sectors_per_block ≡ w.sectors_per_block)
unfolding count_error
count_error-kept n w = elim (Bool-cases (n == 6)) [
  | inl e ↦ simp (e) (refl, refl)
  | inr e ↦ simp (e) (refl, refl)
]

update_blocks_info-Updated :
    (w : WholeSpace) (r : BlockReport)
    → r.sectors_processed ≤ w.unread_count
    → w.unread_count + w.read_ok_count + w.errors_count < 2 ^ 64
    → Updated w r
unfolding update_blocks_info
update_blocks_info-Updated w r l b =
    let k = count_error-kept (status_number r.blk_status) w in
    elim (Bool-cases (Procedure.failed r.blk_status)) [
      | inl bad ↦ record {
        unread = simp (bad) (omega arith);
        errors = simp (bad) (omega arith);
        all = simp (bad, k.0) (omega arith);
        blocks = simp (bad) refl;
        size = simp (bad, k.1) refl;
      }
      | inr good ↦ record {
        unread = simp (good) (omega arith);
        errors = simp (good) (omega arith);
        all = simp (good) (omega arith);
        blocks = simp (good) refl;
        size = simp (good) refl;
      }
    ]

-- What the counters and the map are after some reports.
pub record IsRendered (w v : WholeSpace) (rs : List BlockReport) : Type 0 where
  pub unread : v.unread_count + sectors_of rs ≡ w.unread_count
  pub errors : v.errors_count ≡ w.errors_count + bad_sectors_of rs
  pub all :
      v.unread_count + v.read_ok_count + v.errors_count
      ≡ w.unread_count + w.read_ok_count + w.errors_count
  pub blocks :
      (b : ℕ)
      → b < length w.blocks_map
      → get_or v.blocks_map b 0 ≡ status_after w.sectors_per_block b (get_or w.blocks_map b 0) rs

-- After reports on no more sectors than are unread, where the three counters together fit: the
-- unread sectors are fewer by those of the reports, the sectors with errors are more by those of the
-- reports that failed, the three counters together are what they were, and each block of the map
-- shows the last report about it, or what it showed before if there is none.
pub render_reports-IsRendered :
    (w : WholeSpace) (rs : List BlockReport)
    → sectors_of rs ≤ w.unread_count
    → w.unread_count + w.read_ok_count + w.errors_count < 2 ^ 64
    → IsRendered w (render_reports w rs) rs
unfolding render_reports sectors_of bad_sectors_of status_after
render_reports-IsRendered w [] l b = record {
  unread = omega arith;
  errors = omega arith;
  all = refl;
  blocks = λ k h. refl;
}
render_reports-IsRendered w (r ∷ rs) l b =
    let u = update_blocks_info-Updated w r (omega arith) b in
    let first = u.unread in
    let bad = u.errors in
    let sums = u.all in
    let v = render_reports-IsRendered (update_blocks_info w r) rs (omega arith) (omega arith) in
    record {
      unread = omega (arith, v.unread);
      errors = omega (arith, v.errors);
      all = v.all ∙ sums;
      blocks = λ k h.
          v.blocks k (rw u.blocks (omega (arith, length-set w.blocks_map)))
          ∙ rw (u.size, u.blocks)
              (ap (λ s. status_after w.sectors_per_block k s rs)
                (get_or-set w.blocks_map (r.lba / w.sectors_per_block) k _ h));
    }
