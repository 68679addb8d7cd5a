-- ===== src/Copy/Smart.antt =====
-- `get_task` of the smart strategies.
use whdd_modify.Copy.Split.{right_part, find-right_part, split-Keeps}
use whdd_modify.Prelude.{
  ℕ, ◌+◌, ◌-◌, ◌/◌, ◌<◌, ◌≡◌, ◌≢◌, refl, ◌⊎◌, inl, inr, Bool, true, false, ◌&&◌, Option, none, some,
  List, [], ◌∷◌, arith, ltb, ◌==◌, if◌then◌else◌, Bool-cases, Option-cases, lt→ltb,
}
use whdd_modify.Copy.Zones.{Zone, find, zone_length, IsOrdered}
use whdd_modify.Copy.State.{
  CopyPriv, ReadStrategy, is_smart_no_reverse, indivisible_defect_zone_size_sectors,
}
use whdd_modify.Copy.Strategies.{
  Answer, is_cons, make_current, align, find_largest_from, find_largest_zone,
  give_task_proceeding_current_zone, first_processable, smart_set_first_processable_zone_current,
  split_zone, smart_jump, smart_bisect, smart_get_task,
}
use whdd_modify.Copy.Invariant.{is_skipfail, goes_back, IsValid, Keeps, Gives}
use whdd_modify.Copy.Choice.{
  All-find, Found, All-Found, first_processable-Found, IsBlocked, first_processable-IsBlocked,
  find_largest_from-All,
}
use whdd_modify.Copy.Current.{
  Keeps-refl, current-Gives, forward_first-Gives, zones_Found, strategy-split, zones_counted,
  proceed-Gives,
}

back_allowed :
    (rs : ReadStrategy) (back : Bool)
    → is_skipfail rs ≡ false
    → (back ≡ false) ⊎ (is_smart_no_reverse rs ≡ false)
    → rs ≢ ReadStrategy.plain
    → goes_back rs ≡ false
    → back ≡ false
back_allowed rs back s d n g = ground arith

-- The search for a zone with a border to read at gives a task where it succeeds.
chosen-Gives :
    (p q : CopyPriv) (a : ℕ) (back : Bool)
    → Keeps p q
    → is_skipfail q.read_strategy ≡ false
    → q.read_strategy ≢ ReadStrategy.plain
    → first_processable q.read_strategy q.unread_zones ≡ some (a, back)
    → Gives p (give_task_proceeding_current_zone (make_current q a back))
chosen-Gives p q a back k s n e = elim (Option-cases (find a q.unread_zones)) [
  | inl gone ↦ absurd (found.0 gone)
  | inr (z, f) ↦ current-Gives p q a back z k f (back_allowed q.read_strategy back s found.1 n)
]
  where
    found :
        (find a q.unread_zones ≢ none)
        × ((back ≡ false) ⊎ (is_smart_no_reverse q.read_strategy ≡ false))
    found =
        first_processable-Found q.read_strategy q.unread_zones q.unread_zones a back
          (zones_Found q k.valid) e

set_first_lem :
    (q : CopyPriv) (a : ℕ) (back : Bool)
    → first_processable q.read_strategy q.unread_zones ≡ some (a, back)
    → smart_set_first_processable_zone_current q ≡ (make_current q a back, 0)
unfolding smart_set_first_processable_zone_current
set_first_lem q a back e = rw (e, smart_set_first_processable_zone_current)

choice-Gives :
    (p q : CopyPriv) (a : ℕ) (back : Bool) (other : Option (CopyPriv × Answer))
    → Keeps p q
    → is_skipfail q.read_strategy ≡ false
    → q.read_strategy ≢ ReadStrategy.plain
    → first_processable q.read_strategy q.unread_zones ≡ some (a, back)
    → Gives p (
        if (smart_set_first_processable_zone_current q).1 == 0
        then give_task_proceeding_current_zone (smart_set_first_processable_zone_current q).0
        else other)
choice-Gives p q a back other k s n e =
    rw (set_first_lem q a back e) (chosen-Gives p q a back k s n e)

-- Without a zone to read at a border, the largest zone is of the list and blocked.
largest_lem :
    (rs : ReadStrategy) (next lo hi : ℕ) (zs : List Zone)
    → IsOrdered next lo hi zs
    → first_processable rs zs ≡ none
    → is_cons zs ≡ true
    → (entry : Zone) × (find_largest_zone zs ≡ some entry) × Found zs entry × IsBlocked rs entry
unfolding find_largest_zone
largest_lem rs next lo hi [] o e c = cc
largest_lem rs next lo hi (z ∷ zs) o e c =
    let found = All-Found next lo hi (z ∷ zs) o in
    let blocked = first_processable-IsBlocked rs (z ∷ zs) e in
    (
      find_largest_from z zs,
      refl,
      find_largest_from-All (Found (z ∷ zs)) z zs found.0 found.1,
      find_largest_from-All (IsBlocked rs) z zs blocked.0 blocked.1,
    )

-- The middle of a zone of more than 500 blocks, aligned, is inside it.
middle_inside :
    (b e : ℕ)
    → indivisible_defect_zone_size_sectors < e - b
    → (b < align (b + (e - b) / 2)) × (align (b + (e - b) / 2) < e)
middle_inside b e h = omega arith

smart_jump-Gives :
    (p q : CopyPriv) (entry : Zone)
    → Keeps p q
    → q.current_zone ≡ none
    → is_skipfail q.read_strategy ≡ false
    → q.read_strategy ≢ ReadStrategy.plain
    → Found q.unread_zones entry
    → indivisible_defect_zone_size_sectors < zone_length entry
    → Gives p (smart_jump q entry)
unfolding smart_jump smart_set_first_processable_zone_current
smart_jump-Gives p q entry k c s n f big =
    simp (k.valid.memory, lt→ltb _ _ inside.0, lt→ltb _ _ inside.1)
      (elim (Option-cases (
        first_processable (split_zone q entry mid).read_strategy
          (split_zone q entry mid).unread_zones)) [
            | inl e ↦
                cc
                  (All-find (IsBlocked (split_zone q entry mid).read_strategy) q.next_addr
                    (split_zone q entry mid).unread_zones {z = right_part q entry mid}
                    (first_processable-IsBlocked _ _ e) right).0
            | inr ((a, back), e) ↦
                choice-Gives p (split_zone q entry mid) a back _ kept (rw strategy-split s)
                  (rw strategy-split n) e
          ])
  where
    mid : ℕ
    mid = align (entry.begin_lba + zone_length entry / 2)

    inside : (entry.begin_lba < mid) × (mid < entry.end_lba)
    inside = middle_inside entry.begin_lba entry.end_lba big

    right : find q.next_addr (split_zone q entry mid).unread_zones ≡ some (right_part q entry mid)
    right = find-right_part p q entry mid k f inside.0 inside.1

    kept : Keeps p (split_zone q entry mid)
    kept = split-Keeps p q entry mid k f inside.0 inside.1 c

set_first_none :
    (q : CopyPriv)
    → first_processable q.read_strategy q.unread_zones ≡ none
    → smart_set_first_processable_zone_current q ≡ (q, 1)
unfolding smart_set_first_processable_zone_current
set_first_none q e = rw (e, smart_set_first_processable_zone_current)

stage-Keeps : (p q : CopyPriv) → Keeps p q → Keeps p (record q { stage = 1 })
stage-Keeps p q k = record {
  valid = record {
    ordered = k.valid.ordered;
    counted = k.valid.counted;
    live = k.valid.live;
    forward = k.valid.forward;
    jumps = k.valid.jumps;
    memory = k.valid.memory;
  };
  same_sectors = k.same_sectors;
  same_total = k.same_total;
  settings = ground arith;
}

smart_bisect-Gives :
    (p q : CopyPriv)
    → Keeps p q
    → q.current_zone ≡ none
    → is_skipfail q.read_strategy ≡ false
    → q.read_strategy ≢ ReadStrategy.plain
    → is_cons q.unread_zones ≡ true
    → first_processable q.read_strategy q.unread_zones ≡ none
    → Gives p (smart_bisect q)
unfolding smart_bisect
smart_bisect-Gives p q k c s n full e =
    let (entry, largest, found, blocked) =
      largest_lem q.read_strategy q.next_addr q.start_lba q.end_lba q.unread_zones k.valid.ordered e
        full in
    rw (largest, blocked.0, blocked.1)
      (elim (Bool-cases
        (ltb indivisible_defect_zone_size_sectors (zone_length entry) && ltb q.nb_zones 1000)) [
          | inl big ↦ rw big (smart_jump-Gives p q entry k c s n found (ground arith))
          | inr small ↦ rw small (
              forward_first-Gives p (record q { stage = 1 }) q.unread_zones (stage-Keeps p q k) refl
                full)
        ])

pub smart_get_task-Gives :
    (p : CopyPriv)
    → IsValid p
    → is_skipfail p.read_strategy ≡ false
    → p.read_strategy ≢ ReadStrategy.plain
    → is_cons p.unread_zones ≡ true
    → Gives p (smart_get_task p)
unfolding smart_get_task
smart_get_task-Gives p v s n full =
    rw (full, zones_counted p p.unread_zones v.counted full)
      (elim (Option-cases p.current_zone) [
        | inl idle ↦ simp idle (elim (Bool-cases (p.stage == 1)) [
          | inl forward ↦
              rw forward (forward_first-Gives p p p.unread_zones (Keeps-refl p v) refl full)
          | inr free ↦
              rw free (elim (Option-cases (first_processable p.read_strategy p.unread_zones)) [
                | inl blocked ↦
                    rw (set_first_none p blocked)
                      (smart_bisect-Gives p p (Keeps-refl p v) idle s n full blocked)
                | inr ((a, back), e) ↦ choice-Gives p p a back _ (Keeps-refl p v) s n e
              ])
        ])
        | inr (a, busy) ↦ simp busy (proceed-Gives p a v busy)
      ])
