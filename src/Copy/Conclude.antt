-- ===== src/Copy/Conclude.antt =====
-- The end of a round of `Perform` in libdevcheck/copy.c.
use whdd_modify.Prelude.{
  ℕ, ◌+◌, ◌<◌, ◌≡◌, sym, ◌∙◌, ap, inl, inr, Bool, true, not, ◌&&◌, some, arith, ◌==◌, subst,
  Option-cases, ◌≤◌,
}
use whdd_modify.Prelude.Words.{add64, sub64}
use whdd_modify.Procedure.{Progress}
use whdd_modify.Copy.Zones.{total, within, covers}
use whdd_modify.Copy.State.{CopyPriv}
use whdd_modify.Copy.Strategies.{Task, use_results}
use whdd_modify.Copy.Invariant.{IsValid, Offers, SameSettings, Keeps}
use whdd_modify.Copy.UseResults.{use_results-Takes}
use whdd_modify.Copy.Border.{in_task, Removed, Takes}
use whdd_modify.Copy.Perform.{CopyCtx, Outcome, conclude}
use whdd_modify.Copy.Ready.{IsReady, reported, Tried, Advances}
use whdd_modify.Copy.Written.{in_task_covered, Written}

index-IsValid :
    (q : CopyPriv) (n m : ℕ) → IsValid q → IsValid (record q { blk_index = n; lba_to_process = m })
index-IsValid q n m v = record {
  ordered = v.ordered;
  counted = v.counted;
  live = v.live;
  forward = v.forward;
  jumps = v.jumps;
  memory = v.memory;
}

index-Offers :
    (q : CopyPriv) (t : Task) (n : ℕ) → Offers q t → Offers (record q { blk_index = n }) t
index-Offers q t n o = record {
  addr = o.addr;
  zone = o.zone;
  is_current = o.is_current;
  found = o.found;
  some_sectors = o.some_sectors;
  one_block = o.one_block;
  in_zone = o.in_zone;
  border = o.border;
}

module _ (c : CopyCtx) (q : CopyPriv) (t : Task) (r : IsReady c) (kept : Keeps c.priv q)
    (o : Offers q t) (x : CopyCtx) (w : Written c q t x) where
  abbrev indexed : CopyPriv
  indexed = record q { blk_index = add64 q.blk_index 1 }

  taken : Takes x.priv t x.report.blk_status (use_results x.priv t x.report.blk_status)
  taken =
      subst (λ p. Takes p t x.report.blk_status (use_results p t x.report.blk_status)) (sym w.priv)
        (use_results-Takes indexed t x.report.blk_status
          (index-IsValid q _ q.lba_to_process kept.valid) (index-Offers q t _ o))

  abbrev concluded : CopyPriv → CopyCtx
  concluded p = record x {
    priv = record p { lba_to_process = sub64 p.lba_to_process t.sectors_to_read };
    progress = record (x.progress) { num = add64 x.progress.num t.sectors_to_read };
  }

  same_list : x.priv.unread_zones ≡ q.unread_zones
  same_list = ap (λ (p : CopyPriv). p.unread_zones) w.priv

  same_cover : (i : ℕ) → covers x.priv.unread_zones i ≡ covers c.priv.unread_zones i
  same_cover i = ap (λ zs. covers zs i) same_list ∙ kept.same_sectors i

  report_lem : (i : ℕ) → reported x i ≡ in_task t i
  report_lem i =
      ap (λ (a : ℕ). within a (a + x.report.sectors_processed) i) w.lba
      ∙ ap (λ (n : ℕ). within t.lba_to_read (t.lba_to_read + n) i) w.sectors

  same_num : (x.progress.num ≡ c.progress.num) × (x.progress.den ≡ c.progress.den)
  same_num = (ap (λ (g : Progress). g.num) w.progress, ap (λ (g : Progress). g.den) w.progress)

  module _ (p : CopyPriv) (m : Removed x.priv t p) where
    fewer : total p.unread_zones + t.sectors_to_read ≡ total c.priv.unread_zones
    fewer = m.fewer ∙ ap total same_list ∙ kept.same_total

    gone : (i : ℕ) → covers p.unread_zones i ≡ (covers c.priv.unread_zones i && not (in_task t i))
    gone i = m.gone i ∙ ap (λ b. b && not (in_task t i)) (same_cover i)

    no_wrap : add64 x.progress.num t.sectors_to_read ≡ c.progress.num + t.sectors_to_read
    no_wrap = omega (arith, same_num, fewer, r.measured, r.small)

    concluded_settings : SameSettings c.priv p
    concluded_settings = ground (arith, m.settings, kept.settings, w.priv)

    concluded_recorded :
        p.use_journal ≡ true
        → (i : ℕ) → i < p.end_lba
        → covers p.unread_zones i ≡ (x.journal i == 0)
    concluded_recorded u i l = ground (
      arith,
      gone i,
      w.journal (ground (arith, concluded_settings, kept.settings)) i,
      w.marked,
      r.recorded (ground (arith, concluded_settings)) i,
    )

    concluded_statuses : p.use_journal ≡ true → (i : ℕ) → i < p.end_lba → x.journal i ≤ 3
    concluded_statuses u i l = ground (
      arith,
      w.journal (ground (arith, concluded_settings, kept.settings)) i,
      w.known,
      r.statuses (ground (arith, concluded_settings)) i,
    )

    concluded-Tried : Tried c (concluded p)
    concluded-Tried = record {
      ready = record {
        valid = index-IsValid p p.blk_index _ m.valid;
        measured = omega (arith, no_wrap, fewer, r.measured, same_num);
        small = omega (arith, r.small, same_num);
        recorded = concluded_recorded;
        statuses = concluded_statuses;
      };
      was_unread = λ i h.
          sym (kept.same_sectors i) ∙ in_task_covered q t i kept.valid o (sym (report_lem i) ∙ h);
      now_read = λ i. gone i ∙ ap (λ b. covers c.priv.unread_zones i && not b) (sym (report_lem i));
      counted = omega (arith, no_wrap, w.sectors);
      some_sectors = rw w.sectors o.some_sectors;
      one_block = rw w.sectors o.one_block;
      same_den = same_num.1;
      settings = ground (arith, concluded_settings);
    }

    concluded-Advances :
        (out : Outcome) (b : Bool)
        → use_results x.priv t x.report.blk_status ≡ some (p, b)
        → Advances c (conclude t out x)
    unfolding conclude
    concluded-Advances out b e = simp e (inl concluded-Tried)

  pub conclude-Advances : (out : Outcome) → Advances c (conclude t out x)
  conclude-Advances out = elim (Option-cases (use_results x.priv t x.report.blk_status)) [
    | inl e ↦ absurd (subst (Takes x.priv t x.report.blk_status) e taken)
    | inr ((p, b), e) ↦
        concluded-Advances p (subst (Takes x.priv t x.report.blk_status) e taken).0 out b e
  ]
