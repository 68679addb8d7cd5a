-- ===== src/WriteZeros/Run.antt =====
-- The whole zero filling: `Open` and `Perform` of libdevcheck/posix_write_zeros.c under the loop of
-- libdevcheck/procedure.c.
use whdd_modify.Prelude.{
  ℕ, ◌*◌, ◌≤◌, ◌<◌, ◌≡◌, ◌≢◌, refl, ◌∙◌, Bool, Option, none, some, List, arith, length,
  if◌then◌else◌, subst, sym, ==_iff, ap,
}
use whdd_modify.Procedure.{BlockStatus}
use whdd_modify.Procedure.Loop.{Exit, completed, running, loop}
use whdd_modify.Procedure.Loop.Ends.{Ended, Keeps, loop-Ended}
use whdd_modify.Copy.Zones.{within}
use whdd_modify.WriteZeros.{ZerosCtx, System, sectors_to_write, perform}
use whdd_modify.WriteZeros.Round.{reached, IsReady, Written, perform-Written}

-- A system that writes what it is asked to.
abbrev pub Works : Type 0
Works = (y : System) × ((offset bytes : ℕ) → y.write offset bytes ≡ some bytes)

unfoldable pub run :
    {U : Type 0}
    → (ZerosCtx → U → U × ℕ)
    → List (Bool × Works)
    → ZerosCtx
    → U
    → Option (ZerosCtx × U × Exit)
run callback =
    loop (λ c. c.progress.num) (λ c. c.progress.den) (λ c w. some (perform w.0 c)) callback

-- The bytes of a device on which the sectors from `lo` to `hi` have been zeroed.
abbrev pub IsZeroed : ℕ → ℕ → (ℕ → ℕ) → (ℕ → ℕ) → Type 0
IsZeroed lo hi before after =
    (k : ℕ) → after k ≡ (if within (512 * lo) (512 * hi) k then 0 else before k)

record Follows (c s : ZerosCtx) : Type 0 where
  ready : IsReady s
  same_start : s.priv.start_lba ≡ c.priv.start_lba
  same_end : s.priv.end_lba ≡ c.priv.end_lba
  zeroed : IsZeroed c.priv.start_lba (reached s) c.device s.device

-- A run that has ended; a completed one has zeroed the whole range and nothing else.
abbrev pub ZerosEnded : {U : Type 0} → ZerosCtx → Option (ZerosCtx × U × Exit) → Type 0
ZerosEnded c none = ⊥
ZerosEnded c (some (s, u, e)) =
    (e ≢ running)
    × IsReady s
    × (e ≡ completed → IsZeroed c.priv.start_lba c.priv.end_lba c.device s.device)

written_ok : (w : Works) (s : ZerosCtx) → (perform w.0 s).0.report.blk_status ≡ BlockStatus.ok
unfolding perform
written_ok w s = simp (w.1, (==_iff bytes bytes).1 refl) refl
  where
    bytes : ℕ
    bytes = sectors_to_write s.priv * 512

IsZeroed-extend :
    (lo mid hi : ℕ) (before device after : ℕ → ℕ)
    → lo ≤ mid
    → mid ≤ hi
    → IsZeroed lo mid before device
    → IsZeroed mid hi device after
    → IsZeroed lo hi before after
IsZeroed-extend lo mid hi before device after l m z w k = ground (arith, z k, w k)

some_le : (b n : ℕ) → some b ≡ some n → n ≤ b
some_le b n e = ground arith

module _ {U : Type 0} (callback : ZerosCtx → U → U × ℕ) (rounds : List (Bool × Works))
    (c : ZerosCtx) (u : U) where
  tried-Keeps :
      (s : ZerosCtx) (w : Works)
      → Follows c s
      → s.progress.num < s.progress.den
      → Keeps (λ s. s.progress.num) (λ s. s.progress.den) (Follows c) s (some (perform w.0 s))
  tried-Keeps s w f more =
      let t : Written s (perform w.0 s).0 =
        perform-Written w.0 s f.ready (λ o b n e. some_le b n (sym (w.1 o b) ∙ e)) more in
      (
        record {
          ready = t.ready;
          same_start = t.same_range.0 ∙ f.same_start;
          same_end = t.same_range.1 ∙ f.same_end;
          zeroed =
              IsZeroed-extend c.priv.start_lba (reached s) (reached (perform w.0 s).0) c.device
                s.device (perform w.0 s).0.device
                (ground (arith, f.same_start, f.same_end, f.ready.started))
                (omega (arith, t.from_reached, t.up_to)) f.zeroed
                (λ k.
                  subst
                    (λ lo. (perform w.0 s).0.device k ≡ (
                      if within (512 * lo) (512 * reached (perform w.0 s).0) k
                      then 0
                      else s.device k))
                    t.from_reached
                    (subst
                      (λ hi. (perform w.0 s).0.device k ≡ (
                        if within (512 * (perform w.0 s).0.report.lba) (512 * hi) k
                        then 0
                        else s.device k))
                      t.up_to (t.zeroed (written_ok w s) k)));
        },
        t.same_den,
        λ _. omega (arith, t.counted),
      )

  ended_lem :
      (o : Option (ZerosCtx × U × Exit))
      → Ended (λ s. s.progress.num) (λ s. s.progress.den) (Follows c) o
      → ZerosEnded c o
  ended_lem none h = h
  ended_lem (some (s, u, e)) (f, n, d, _, _) = (
    n,
    f.ready,
    λ done k.
        f.zeroed k
        ∙ ap (λ hi. if within (512 * c.priv.start_lba) (512 * hi) k then 0 else c.device k)
            (all_reached (d done)),
  )
    where
      all_reached : s.progress.den ≤ s.progress.num → reached s ≡ c.priv.end_lba
      all_reached h = ground (arith, f.same_end, f.ready.enough, f.ready.index, f.ready.in_bounds)

  -- From a ready state of which nothing is written yet, on a device that writes what it is asked to,
  -- and with rounds enough for the blocks, the filling ends, whatever the frontend does. Where it
  -- ends completed, all bytes of the sectors from the start LBA to the end LBA are zero, and
  -- no other byte has changed.
  pub run-ZerosEnded :
      IsReady c
      → c.progress.num ≡ 0
      → c.progress.den < length rounds
      → ZerosEnded c (run callback rounds c u)
  unfolding run
  run-ZerosEnded r z l = ended_lem _ (
      loop-Ended _ _ _ callback (Follows c) tried-Keeps rounds c u
        (record {
          ready = r;
          same_start = refl;
          same_end = refl;
          zeroed = λ k. ground (arith, r.index, r.started);
        })
        (omega arith))
