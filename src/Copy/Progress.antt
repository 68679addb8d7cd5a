-- ===== src/Copy/Progress.antt =====
-- `Perform` of libdevcheck/copy.c: it does not abort, it reads only unread sectors, and the state
-- that the journal and the progress describe stays the true one.
use whdd_modify.Prelude.{
  ℕ, ◌+◌, ◌<◌, ◌≡◌, refl, ◌∙◌, inl, inr, true, not, ◌&&◌, some, List, [], ◌∷◌, arith, ltb, ◌==◌,
  Bool-cases, subst, Option-cases,
}
use whdd_modify.Copy.Zones.{Zone, total}
use whdd_modify.Copy.State.{CopyPriv}
use whdd_modify.Copy.Strategies.{Task, Answer, given, refused, is_cons, get_task}
use whdd_modify.Copy.Invariant.{Offers, Keeps, Gives}
use whdd_modify.Copy.GetTask.{get_task-Gives}
use whdd_modify.Copy.Perform.{Kernel, CopyCtx, act, perform_task, perform}
use whdd_modify.Copy.Ready.{IsReady, Stopped, Advances}
use whdd_modify.Copy.Written.{written}
use whdd_modify.Copy.Conclude.{conclude-Advances}

-- While the progress is not complete, the list has a zone.
pub unread_left :
    (c : CopyCtx) → IsReady c → c.progress.num < c.progress.den → is_cons c.priv.unread_zones ≡ true
unread_left c r more = go c.priv.unread_zones r.measured
  where
    go : (zs : List Zone) → c.progress.num + total zs ≡ c.progress.den → is_cons zs ≡ true
    go [] h = absurd (omega arith)
    go (z ∷ zs) h = refl

stop-Stopped :
    (c : CopyCtx) (q : CopyPriv) → IsReady c → Keeps c.priv q → Stopped c (record c { priv = q })
stop-Stopped c q r kept = record {
  ready = record {
    valid = kept.valid;
    measured = omega (arith, kept.same_total, r.measured);
    small = r.small;
    recorded = λ u i l.
        kept.same_sectors i
        ∙ r.recorded (ground (arith, kept.settings)) i (ground (arith, kept.settings));
    statuses =
        λ u i l. r.statuses (ground (arith, kept.settings)) i (ground (arith, kept.settings));
  };
  unchanged = kept.same_sectors;
  same_progress = refl;
  settings = kept.settings;
}

module _ (k : Kernel) (c : CopyCtx) (r : IsReady c)
    (journal_works : (lba n : ℕ) → k.write_journal lba n ≡ some n) where
  perform_task-Advances :
      (q : CopyPriv) (t : Task) → Keeps c.priv q → Offers q t → Advances c (perform_task k c q t)
  unfolding perform_task
  perform_task-Advances q t kept o =
      elim (Bool-cases (
        not (q.dst_file_end_lba == 0)
        && ltb q.dst_file_end_lba (t.lba_to_read + t.sectors_to_read))) [
          | inl e ↦ rw e (inr (stop-Stopped c q r kept, refl))
          | inr e ↦
              let (x, h, w) = written k c q t journal_works (act q.api k t) in
              rw (e, h) (conclude-Advances c q t r kept o x w (act q.api k t))
        ]

  answer-Advances :
      (q : CopyPriv) (a : Answer)
      → Gives c.priv (some (q, a))
      → get_task c.priv ≡ some (q, a)
      → Advances c (perform k c)
  unfolding perform
  answer-Advances q (given t) g e = rw (e, perform) (perform_task-Advances q t g.0 g.1)
  answer-Advances q refused g e = rw (e, perform) (inr (stop-Stopped c q r g.0, refl))

  -- In a ready state, for which there is memory for the zones that are split and, with a skipfail
  -- strategy, a jump of some blocks that fits an int, with sectors still to be read and a journal
  -- file that takes what is written to it: `Perform` does not abort, whatever the device and the destination answer. Either it tries between 1 and
  -- 256 sectors, none of which was tried before, takes exactly these off the unread sectors and adds
  -- their number to the progress; or it returns 1 and has tried nothing. Both ways the unread
  -- sectors stay what the progress counts and, where there is a journal, what it marks as unread.
  pub perform-Advances : c.progress.num < c.progress.den → Advances c (perform k c)
  perform-Advances more = elim (Option-cases (get_task c.priv)) [
    | inl e ↦ absurd (subst (Gives c.priv) e gives)
    | inr ((q, a), e) ↦ answer-Advances q a (subst (Gives c.priv) e gives) e
  ]
    where
      gives : Gives c.priv (get_task c.priv)
      gives = get_task-Gives c.priv r.valid (unread_left c r more)
