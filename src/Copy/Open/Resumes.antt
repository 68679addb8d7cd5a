-- ===== src/Copy/Open/Resumes.antt =====
-- How `Open` of libdevcheck/copy.c goes on where a run was interrupted.
use whdd_modify.Prelude.{
  ℕ, ◌-◌, ◌/◌, ◌≤◌, ◌<◌, ◌≡◌, ◌∙◌, ap, sym, true, Bool, some, List, length, ◌==◌, arith, refl,
  subst,
}
use whdd_modify.Procedure.Loop.{Exit}
use whdd_modify.Procedure.Loop.Ends.{Ended}
use whdd_modify.Copy.Zones.{covers}
use whdd_modify.Copy.Perform.{CopyCtx}
use whdd_modify.Copy.Ready.{IsReady}
use whdd_modify.Copy.Run.{Works, kernel_of, run, Follows, run-Follows}
use whdd_modify.Copy.Open.{Options, Device, Files, System, opened, open_copy}
use whdd_modify.Copy.Open.Opened.{IsUsable, to_read, open_copy-IsOpened}

module _ (d : Device) (o : Options) (f : Files) (y : System) (h : IsUsable d o f y) (s : CopyCtx)
    (r : IsReady s) (used : s.priv.use_journal ≡ true) (uses : o.use_journal ≡ true)
    (same_device : s.priv.end_lba ≡ d.capacity / 512)
    (there : f.journal_size ≡ some (d.capacity / 512))
    (same_file : (k : ℕ) → k < d.capacity / 512 → f.journal k ≡ s.journal k) where
  statuses : (k : ℕ) → k < d.capacity / 512 → f.journal k ≤ 3
  statuses k l = omega (arith, same_file k l, r.statuses used k (omega arith))

  marked : (k : ℕ) → to_read o f k ≡ (f.journal k == 0)
  marked k = simp (uses, there) refl

  reopened :
      (c : CopyCtx) × (open_copy d o f y ≡ opened c)
      × IsReady c
      × ((k : ℕ)
          → k < d.capacity / 512
          → covers c.priv.unread_zones k ≡ covers s.priv.unread_zones k)
  reopened =
      let (c, e, w) = open_copy-IsOpened d o f y h statuses in
      (
        c,
        e,
        w.ready,
        λ k l.
            w.unread k l
            ∙ marked k
            ∙ ap (λ b. b == 0) (same_file k l)
            ∙ sym (r.recorded used k (omega arith)),
      )

-- A copying of the whole device with a journal runs, from a ready state, with kernels that can write
-- the journal file and more rounds than there are sectors left, and ends in some state, completed,
-- interrupted or stopped by a round. Where `Open` then has all that it needs, is to use the journal,
-- and finds the journal file as the run left it, it succeeds. It leaves a ready state with exactly
-- the unread sectors that the run left, and these were unread before the run.
pub open_copy-resumes :
    {U : Type 0} (callback : CopyCtx → U → U × ℕ) (rounds : List (Bool × Works)) (c s : CopyCtx)
    (u v : U) (e : Exit) (d : Device) (o : Options) (f : Files) (y : System)
    → IsReady c
    → c.priv.use_journal ≡ true
    → c.priv.end_lba ≡ d.capacity / 512
    → c.progress.den - c.progress.num < length rounds
    → run kernel_of callback rounds c u ≡ some (s, v, e)
    → IsUsable d o f y
    → o.use_journal ≡ true
    → f.journal_size ≡ some (d.capacity / 512)
    → ((k : ℕ) → k < d.capacity / 512 → f.journal k ≡ s.journal k)
    → (c' : CopyCtx) × (open_copy d o f y ≡ opened c')
      × IsReady c'
      × ((k : ℕ)
          → k < d.capacity / 512
          → (covers c'.priv.unread_zones k ≡ covers s.priv.unread_zones k)
            × (covers c'.priv.unread_zones k ≡ true → covers c.priv.unread_zones k ≡ true))
open_copy-resumes callback rounds c s u v e d o f y r used whole enough ran h uses there same =
    let w =
      subst (Ended (λ z. z.progress.num) (λ z. z.progress.den) (Follows c)) ran
        (run-Follows callback rounds c u r enough) in
    let (c', opens, ready, unread) =
      reopened d o f y h s w.0.ready (w.0.same_journal ∙ used) uses (w.0.same_end ∙ whole) there
        same in
    (c', opens, ready, λ k l. (unread k l, λ t. w.0.no_new k (sym (unread k l) ∙ t)))
