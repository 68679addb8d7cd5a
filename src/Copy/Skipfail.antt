-- ===== src/Copy/Skipfail.antt =====
-- `get_task` of the skipfail strategies.
use whdd_modify.Copy.Split.{left_part, right_part, find-left_part, find-right_part, split-Keeps}
use whdd_modify.Prelude.{
  ℕ, ◌+◌, ◌*◌, ◌<◌, ◌≡◌, refl, inl, inr, ◌⊎◌, ◌^◌, some, true, false, not, ◌&&◌, none, List, [],
  ◌∷◌, arith, ltb, Bool-cases, Option-cases, lt→ltb, ltb→lt,
}
use whdd_modify.Copy.Zones.{Zone, zone_length}
use whdd_modify.Copy.State.{CopyPriv, is_skipfail_no_reverse, sectors_at_once}
use whdd_modify.Copy.Strategies.{
  is_cons, align, split_zone, skip_sectors, skipfail_jump, skipfail_search, skipfail_get_task,
}
use whdd_modify.Copy.Invariant.{is_skipfail, IsValid, Keeps, Gives}
use whdd_modify.Copy.Choice.{All, Found}
use whdd_modify.Copy.Current.{
  Keeps-refl, current-Gives, zones_Found, strategy-split, zones_counted, proceed-Gives,
}

skipfail_jump-Gives :
    (p : CopyPriv) (entry : Zone)
    → IsValid p
    → is_skipfail p.read_strategy ≡ true
    → p.current_zone ≡ none
    → Found p.unread_zones entry
    → p.skip_blocks * sectors_at_once < zone_length entry
    → Gives p (skipfail_jump p entry (p.skip_blocks * sectors_at_once))
unfolding skipfail_jump
skipfail_jump-Gives p entry v s c f big =
    simp (v.memory, lt→ltb _ _ inside.0, lt→ltb _ _ inside.1)
      (elim (Bool-cases (is_skipfail_no_reverse p.read_strategy)) [
        | inl e ↦ rw e (
            current-Gives p (split_zone p entry mid) p.next_addr false (right_part p entry mid) kept
              (find-right_part p p entry mid (Keeps-refl p v) f inside.0 inside.1) (λ _. refl))
        | inr e ↦ rw e (
            current-Gives p (split_zone p entry mid) entry.addr true (left_part p entry mid) kept
              (find-left_part p p entry mid (Keeps-refl p v) f inside.0 inside.1)
              (rw strategy-split (ground arith)))
      ])
  where
    mid : ℕ
    mid = align (entry.begin_lba + p.skip_blocks * sectors_at_once)

    inside : (entry.begin_lba < mid) × (mid < entry.end_lba)
    inside = ground (arith, v.jumps)

    kept : Keeps p (split_zone p entry mid)
    kept = split-Keeps p p entry mid (Keeps-refl p v) f inside.0 inside.1 c

-- The product of a valid state does not overflow.
skip_sectors_fit :
    (p : CopyPriv)
    → IsValid p
    → is_skipfail p.read_strategy ≡ true
    → skip_sectors p ≡ some (p.skip_blocks * sectors_at_once)
unfolding skip_sectors
skip_sectors_fit p v s = rw (lt→ltb _ (2 ^ 31) (small v.jumps)) refl
  where
    small :
        (is_skipfail p.read_strategy ≡ false)
          ⊎ ((0 < p.skip_blocks) × (p.skip_blocks * sectors_at_once < 2 ^ 31))
        → p.skip_blocks * sectors_at_once < 2 ^ 31
    small (inl n) = cc
    small (inr b) = b.1

skipfail_search-Gives :
    (p : CopyPriv) (rest : List Zone)
    → IsValid p
    → is_skipfail p.read_strategy ≡ true
    → p.current_zone ≡ none
    → All (Found p.unread_zones) rest
    → Gives p (skipfail_search p rest)
unfolding skipfail_search
skipfail_search-Gives p [] v s c h = (Keeps-refl p v, s)
skipfail_search-Gives p (entry ∷ rest) v s c h = elim (Bool-cases entry.begin_lba_defective) [
  | inl bad ↦
      simp bad
        (elim (Bool-cases (
          not (is_skipfail_no_reverse p.read_strategy)
          && (not entry.end_lba_defective && is_cons rest))) [
            | inl back ↦
                rw back
                  (current-Gives p p entry.addr true entry (Keeps-refl p v) h.0 (ground arith))
            | inr no_back ↦ rw no_back (
                rw (skip_sectors_fit p v s)
                  (elim (Bool-cases (ltb (p.skip_blocks * sectors_at_once) (zone_length entry))) [
                    | inl big ↦ rw big (skipfail_jump-Gives p entry v s c h.0 (ltb→lt _ _ big))
                    | inr small ↦ rw small (skipfail_search-Gives p rest v s c h.1)
                  ]))
          ])
  | inr good ↦ simp good (current-Gives p p entry.addr false entry (Keeps-refl p v) h.0 (λ _. refl))
]

pub skipfail_get_task-Gives :
    (p : CopyPriv)
    → IsValid p
    → is_skipfail p.read_strategy ≡ true
    → is_cons p.unread_zones ≡ true
    → Gives p (skipfail_get_task p)
unfolding skipfail_get_task
skipfail_get_task-Gives p v s full =
    rw (full, zones_counted p p.unread_zones v.counted full)
      (elim (Option-cases p.current_zone) [
        | inl idle ↦ simp idle (skipfail_search-Gives p p.unread_zones v s idle (zones_Found p v))
        | inr (a, busy) ↦ simp busy (proceed-Gives p a v busy)
      ])
