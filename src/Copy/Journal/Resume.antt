-- ===== src/Copy/Journal/Resume.antt =====
-- The zones that `Open` makes of a journal stand for the sectors that it marks as unread.
use native.Mathlib.Numerals.{add-one}
use whdd_modify.Prelude.{
  ℕ, zero, suc, ◌+◌, ◌≤◌, ◌<◌, ◌≡◌, refl, ◌∙◌, inl, inr, Bool, true, false, ◌&&◌, Option, none,
  some, [], arith, length, ◌==◌, if◌then◌else◌, Bool-cases, Option-cases, subst, ==_iff, ◌%◌,
}
use whdd_modify.Copy.Zones.{Zone, total, covers, IsOrdered}
use whdd_modify.Copy.Zones.Order.{IsOrdered-allocate, find_fresh}
use whdd_modify.Copy.Journal.{
  Scan, is_error, is_read, append_zone, close_zone, open_zone, scan_status, scan_sector, scan_from,
  finish, parse_journal, chunk_size,
}
use whdd_modify.Copy.Journal.Behind.{
  Behind, Scanned, close-Behind, close_counted, close_measured, grow-Behind, between,
}

-- A status that is not "unread" ends a zone.
is_read_lem : (s : ℕ) → s ≤ 3 → (s == 0) ≡ false → is_read s ≡ true
is_read_lem s h e = ground arith

step_none :
    (journal : ℕ → ℕ) (i : ℕ) (s : Scan)
    → journal i ≤ 3
    → Scanned journal i s
    → s.current_zone ≡ none
    → Scanned journal (suc i) (scan_sector s i (journal i))
unfolding scan_sector scan_status open_zone
step_none journal i s v m e = elim (Bool-cases (journal i == 0)) [
  | inl fresh ↦
      simp (fresh, e)
        (record {
          counted = m.counted;
          measured = m.measured;
          behind = (
            IsOrdered-allocate 0 i s.next_addr s.zones b.0,
            omega arith,
            omega arith,
            find_fresh s.next_addr 0 i s.next_addr s.zones b.0 (omega arith),
            b.1,
            λ k h l. rw (between h l) ((==_iff (journal i) 0).0 fresh),
          );
        })
  | inr seen ↦
      simp (seen, is_read_lem (journal i) v seen, e)
        (record {
          counted = m.counted;
          measured = m.measured;
          behind = grow-Behind journal i s (λ z. cc ((==_iff (journal i) 0).1 z)) b;
        })
]
  where
    b : Behind journal i s none
    b = subst (Behind journal i s) e m.behind

step_some :
    (journal : ℕ → ℕ) (i : ℕ) (s : Scan) (z : Zone)
    → journal i ≤ 3
    → Scanned journal i s
    → s.current_zone ≡ some z
    → Scanned journal (suc i) (scan_sector s i (journal i))
unfolding scan_sector scan_status close_zone append_zone
step_some journal i s z v m e = elim (Bool-cases (journal i == 0)) [
  | inl fresh ↦
      simp (fresh, e)
        (record {
          counted = m.counted;
          measured = m.measured;
          behind = (
            b.0,
            omega (arith, b),
            b.2,
            b.3,
            b.4,
            λ k h l. elim (Bool-cases (k == i)) [
              | inl q ↦ rw ((==_iff k i).0 q) ((==_iff (journal i) 0).0 fresh)
              | inr q ↦ b.5 k h (ground arith)
            ],
          );
        })
  | inr seen ↦
      simp (seen, is_read_lem (journal i) v seen, e)
        (record {
          counted = close_counted s z i (is_error (journal i)) m.counted;
          measured = close_measured s z i (is_error (journal i)) m.measured;
          behind =
              grow-Behind journal i (close_zone s z i (is_error (journal i)))
                (λ z. cc ((==_iff (journal i) 0).1 z))
                (close-Behind journal i s z (is_error (journal i)) b);
        })
]
  where
    b : Behind journal i s (some z)
    b = subst (Behind journal i s) e m.behind

step-Scanned :
    (journal : ℕ → ℕ) (i : ℕ) (s : Scan)
    → journal i ≤ 3
    → Scanned journal i s
    → Scanned journal (suc i) (scan_sector s i (journal i))
step-Scanned journal i s v m = elim (Option-cases s.current_zone) [
  | inl e ↦ step_none journal i s v m e
  | inr (z, e) ↦ step_some journal i s z v m e
]

no_failure :
    (due ok : Bool) {o : Option Scan}
    → ok ≡ true
    → (if due && (if ok then false else true) then none else o) ≡ o
no_failure due ok e = ground arith

-- The loop from sector i on.
scan-Scanned :
    (reads : ℕ → Bool) (journal : ℕ → ℕ) (n i j : ℕ) (s : Scan)
    → i + n ≡ j
    → ((k : ℕ) → k < j → journal k ≤ 3)
    → ((k : ℕ) → reads k ≡ true)
    → Scanned journal i s
    → (s' : Scan) × (scan_from reads journal n i s ≡ some s') × Scanned journal j s'
unfolding scan_from
scan-Scanned reads journal zero i j s e v r m =
    (s, refl, let same : i ≡ j = omega arith in rw same at m)
scan-Scanned reads journal (suc n) i j s e v r m =
    let next : Scanned journal (i + 1) (scan_sector s i (journal i)) =
      rw add-one (step-Scanned journal i s (v i (omega arith)) m) in
    let (s', h, m') =
      scan-Scanned reads journal n (i + 1) j (scan_sector s i (journal i)) (omega arith) v r next in
    (s', no_failure (i % chunk_size == 0) (reads i) (r i) ∙ h, m')

-- The zones, with what the resumed copying starts from.
pub record Resumed (journal : ℕ → ℕ) (end_lba : ℕ) (s : Scan) : Type 0 where
  pub ordered : IsOrdered s.next_addr 0 end_lba s.zones
  pub counted : s.nb_zones ≡ length s.zones
  pub measured : s.den ≡ total s.zones
  pub marked : (k : ℕ) → k < end_lba → covers s.zones k ≡ (journal k == 0)

finish_lem :
    (journal : ℕ → ℕ) (i : ℕ) (s : Scan) → Scanned journal i s → Resumed journal i (finish s i)
unfolding finish
finish_lem journal i s m = elim (Option-cases s.current_zone) [
  | inl e ↦
      simp (e, finish)
        (let b : Behind journal i s none = subst (Behind journal i s) e m.behind in
          record { ordered = b.0; counted = m.counted; measured = m.measured; marked = b.1 })
  | inr (z, e) ↦
      simp (e, finish)
        (let b = close-Behind journal i s z false (subst (Behind journal i s) e m.behind) in
          record {
            ordered = b.0;
            counted = close_counted s z i false m.counted;
            measured = close_measured s z i false m.measured;
            marked = b.1;
          })
]

-- Where every byte of the journal is a status, whichever, and every read of the file succeeds, the
-- scan gives disjoint ascending zones that cover exactly the sectors of status 0, their number as
-- `nb_zones`, and their sectors as the denominator of the progress.
pub parse_journal-Resumed :
    (reads : ℕ → Bool) (journal : ℕ → ℕ) (end_lba next_addr : ℕ)
    → ((k : ℕ) → k < end_lba → journal k ≤ 3)
    → ((k : ℕ) → reads k ≡ true)
    → (s : Scan) × (parse_journal reads journal end_lba next_addr ≡ some s)
      × Resumed journal end_lba s
unfolding parse_journal covers
parse_journal-Resumed reads journal end_lba next_addr v r =
    let (s, h, m) = scan-Scanned reads journal end_lba 0 end_lba fresh (omega arith) v r (record {
      counted = refl;
      measured = refl;
      behind = (omega arith, λ k l. absurd (omega arith));
    }) in
    (finish s end_lba, rw h refl, finish_lem journal end_lba s m)
  where
    fresh : Scan
    fresh = record {
      zones = [];
      nb_zones = 0;
      den = 0;
      current_zone = none;
      prev_sector_status = 0;
      next_addr = next_addr;
    }
