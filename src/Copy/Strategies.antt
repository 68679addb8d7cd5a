-- ===== src/Copy/Strategies.antt =====
-- libdevcheck/copy_read_strategies.c: which sectors to read next, and what a result does to the
-- unread zones.
use whdd_modify.Prelude.{
  ℕ, ◌+◌, ◌-◌, ◌*◌, ◌/◌, ◌%◌, ◌^◌, Bool, true, false, not, ◌&&◌, ◌||◌, Option, none, some, List, [],
  ◌∷◌, ltb, leb, ◌==◌, if◌then◌else◌, ◌>>=◌, ◌>>◌, assert,
}
use whdd_modify.Procedure.{BlockStatus, failed}
use whdd_modify.Copy.Zones.{Zone, find, store, insert_after, unlink, zone_length}
use whdd_modify.Copy.State.{
  CopyPriv, ReadStrategy, is_smart_no_reverse, is_skipfail_no_reverse, sectors_at_once,
  indivisible_defect_zone_size_sectors,
}

-- What `get_task` stores through its two pointers.
pub record Task : Type 0 where
  pub lba_to_read : ℕ
  pub sectors_to_read : ℕ

-- `refused` is a return value of 1.
pub data Answer : Type 0 where
  given : Task → Answer
  refused : Answer

abbrev pub is_some {ℓ} : {A : Type ℓ} → Option A → Bool
is_some none = false
is_some (some a) = true

abbrev pub is_cons : List Zone → Bool
is_cons [] = false
is_cons (z ∷ zs) = true

-- The dereferencing of `priv->unread_zones`.
abbrev pub first_zone : List Zone → Option Zone
first_zone [] = none
first_zone (z ∷ zs) = some z

-- The dereferencing of `priv->current_zone`.
abbrev pub deref : Option ℕ → List Zone → Option Zone
deref none zs = none
deref (some a) zs = find a zs

abbrev pub capped : ℕ → ℕ
capped n = if ltb n sectors_at_once then n else sectors_at_once

abbrev pub make_current : CopyPriv → ℕ → Bool → CopyPriv
make_current p a reversive = record p {
  current_zone = some a;
  current_zone_read_direction_reversive = reversive;
}

abbrev pub plain_task : Zone → Task
plain_task zone = record {
  lba_to_read = zone.begin_lba;
  sectors_to_read =
      if ltb sectors_at_once (zone_length zone) then sectors_at_once else zone_length zone;
}

unfoldable pub plain_get_task : CopyPriv → Option (CopyPriv × Answer)
plain_get_task p = first_zone p.unread_zones >>= λ zone.
    some (record p { current_zone = some zone.addr }, given (plain_task zone))

unfoldable pub find_largest_from : Zone → List Zone → Zone
find_largest_from largest [] = largest
find_largest_from largest (entry ∷ zs) =
    find_largest_from (if ltb (zone_length largest) (zone_length entry) then entry else largest) zs

unfoldable pub find_largest_zone : List Zone → Option Zone
find_largest_zone [] = none
find_largest_zone (z ∷ zs) = some (find_largest_from z zs)

unfoldable pub give_task_proceeding_current_zone : CopyPriv → Option (CopyPriv × Answer)
give_task_proceeding_current_zone p = deref p.current_zone p.unread_zones >>= λ entry.
    let sectors = capped (zone_length entry) in
    some (
      p,
      given (record {
        lba_to_read =
            if p.current_zone_read_direction_reversive
            then entry.end_lba - sectors
            else entry.begin_lba;
        sectors_to_read = sectors;
      }),
    )

-- The zone that becomes current, and the direction.
unfoldable pub first_processable : ReadStrategy → List Zone → Option (ℕ × Bool)
first_processable rs [] = none
first_processable rs (entry ∷ zs) =
    if not entry.begin_lba_defective
    then some (entry.addr, false)
    else if is_smart_no_reverse rs
    then first_processable rs zs
    else if not entry.end_lba_defective
    then some (entry.addr, true)
    else first_processable rs zs

unfoldable pub smart_set_first_processable_zone_current : CopyPriv → CopyPriv × ℕ
smart_set_first_processable_zone_current p =
    elim (first_processable p.read_strategy p.unread_zones) [
      | none ↦ (p, 1)
      | some (a, reversive) ↦ (make_current p a reversive, 0)
    ]

-- A new node takes the part of `entry` from `mid` on; `entry` keeps the part before it.
unfoldable pub split_zone : CopyPriv → Zone → ℕ → CopyPriv
split_zone p entry mid = record p {
  nb_zones = p.nb_zones + 1;
  next_addr = p.next_addr + 1;
  unread_zones =
      store entry.addr (λ z. record z { end_lba = mid; end_lba_defective = false })
        (insert_after entry.addr newentry p.unread_zones);
}
  where
    newentry : Zone
    newentry = record {
      addr = p.next_addr;
      begin_lba = mid;
      end_lba = entry.end_lba;
      begin_lba_defective = false;
      end_lba_defective = entry.end_lba_defective;
    }

abbrev pub align : ℕ → ℕ
align lba = lba - lba % sectors_at_once

abbrev pub read_forward_from_first : CopyPriv → Option (CopyPriv × Answer)
read_forward_from_first p = first_zone p.unread_zones >>= λ z.
    give_task_proceeding_current_zone (make_current p z.addr false)

-- The jump into the middle of the largest zone.
unfoldable pub smart_jump : CopyPriv → Zone → Option (CopyPriv × Answer)
smart_jump p entry =
    let mid = align (entry.begin_lba + zone_length entry / 2) in
    let chosen = smart_set_first_processable_zone_current (split_zone p entry mid) in
    assert p.allocates
    >> assert (ltb entry.begin_lba mid && ltb mid entry.end_lba)
    >> (if chosen.1 == 0
        then give_task_proceeding_current_zone chosen.0
        else some (chosen.0, refused))

-- There are only zones with defective borders.
unfoldable pub smart_bisect : CopyPriv → Option (CopyPriv × Answer)
smart_bisect p = find_largest_zone p.unread_zones >>= λ entry.
    assert entry.begin_lba_defective
    >> (assert (is_smart_no_reverse p.read_strategy || entry.end_lba_defective)
        >> (if ltb indivisible_defect_zone_size_sectors (zone_length entry) && ltb p.nb_zones 1000
            then smart_jump p entry
            else read_forward_from_first (record p { stage = 1 })))

unfoldable pub smart_get_task : CopyPriv → Option (CopyPriv × Answer)
smart_get_task p =
    assert (is_cons p.unread_zones)
    >> (assert (not (p.nb_zones == 0))
        >> (if is_some p.current_zone
            then give_task_proceeding_current_zone p
            else if p.stage == 1
            then read_forward_from_first p
            else let chosen = smart_set_first_processable_zone_current p in
              if chosen.1 == 0 then give_task_proceeding_current_zone chosen.0 else smart_bisect p))

-- `priv->skip_blocks * SECTORS_AT_ONCE`, an `int`; `none` is an overflow. (A negative number, as its
-- pattern, is `none` too: the zone is larger, and the `assert` of the jump fails.)
unfoldable pub skip_sectors : CopyPriv → Option ℕ
skip_sectors p =
    assert (ltb (p.skip_blocks * sectors_at_once) (2 ^ 31))
    >> some (p.skip_blocks * sectors_at_once)

-- The jump over so many sectors.
unfoldable pub skipfail_jump : CopyPriv → Zone → ℕ → Option (CopyPriv × Answer)
skipfail_jump p entry skip =
    let mid = align (entry.begin_lba + skip) in
    let q = split_zone p entry mid in
    assert p.allocates
    >> assert (ltb entry.begin_lba mid && ltb mid entry.end_lba)
    >> (if is_skipfail_no_reverse p.read_strategy
        then give_task_proceeding_current_zone (make_current q p.next_addr false)
        else give_task_proceeding_current_zone (make_current q entry.addr true))

-- The loop over the entries; the list is what is left of it.
unfoldable pub skipfail_search : CopyPriv → List Zone → Option (CopyPriv × Answer)
skipfail_search p [] = some (p, refused)
skipfail_search p (entry ∷ rest) =
    if not entry.begin_lba_defective
    then give_task_proceeding_current_zone (make_current p entry.addr false)
    else if not (is_skipfail_no_reverse p.read_strategy)
        && (not entry.end_lba_defective && is_cons rest)
    then give_task_proceeding_current_zone (make_current p entry.addr true)
    else let next = skipfail_search p rest in
      skip_sectors p >>= λ skip.
      if ltb skip (zone_length entry) then skipfail_jump p entry skip else next

unfoldable pub skipfail_get_task : CopyPriv → Option (CopyPriv × Answer)
skipfail_get_task p =
    assert (is_cons p.unread_zones)
    >> (assert (not (p.nb_zones == 0))
        >> (if is_some p.current_zone
            then give_task_proceeding_current_zone p
            else skipfail_search p p.unread_zones))

-- The part of `common_update_zones` below the bounds: a zone of length 0 is removed.
unfoldable pub drop_if_empty : CopyPriv → ℕ → Zone → Option CopyPriv
drop_if_empty p a zone =
    assert (leb zone.begin_lba zone.end_lba)
    >> (if zone.begin_lba == zone.end_lba
        then some (record p {
          unread_zones = unlink a p.unread_zones;
          nb_zones = p.nb_zones - 1;
          current_zone = none;
        })
        else some p)

-- The zone with its bounds moved past the task. Going backward the assert is on the new end, which
-- as a number cannot fall below 0: a negative one differs from the LBA too.
unfoldable pub moved : Bool → Task → BlockStatus → Zone → Option Zone
moved reversive t status z =
    if reversive
    then assert
        (leb t.sectors_to_read z.end_lba && (z.end_lba - t.sectors_to_read == t.lba_to_read))
      >> some
          (record z { end_lba = z.end_lba - t.sectors_to_read; end_lba_defective = failed status })
    else assert (z.begin_lba == t.lba_to_read)
      >> some (record z {
        begin_lba = z.begin_lba + t.sectors_to_read;
        begin_lba_defective = failed status;
      })

unfoldable pub common_update_zones : CopyPriv → Task → BlockStatus → Option CopyPriv
common_update_zones p t status = elim p.current_zone [
  | none ↦ none
  | some a ↦ find a p.unread_zones >>= λ zone.
      moved p.current_zone_read_direction_reversive t status zone >>= λ zone'.
      drop_if_empty (record p { unread_zones = store a (λ _. zone') p.unread_zones }) a zone'
]

-- Each `use_results` returns the state and the `int`, as the condition of an `if`.
unfoldable pub plain_update_zones : CopyPriv → Task → BlockStatus → Option (CopyPriv × Bool)
plain_update_zones p t status = common_update_zones p t status >>= λ q. some (q, failed status)

unfoldable pub smart_update_zones : CopyPriv → Task → BlockStatus → Option (CopyPriv × Bool)
smart_update_zones p t status = common_update_zones p t status >>= λ q.
    some (if failed status && (p.stage == 0) then record q { current_zone = none } else q, false)

unfoldable pub skipfail_update_zones : CopyPriv → Task → BlockStatus → Option (CopyPriv × Bool)
skipfail_update_zones p t status = common_update_zones p t status >>= λ q.
    some (if failed status then record q { current_zone = none } else q, false)

-- The tables of functions, by the strategy that they are chosen for.
unfoldable pub get_task : CopyPriv → Option (CopyPriv × Answer)
get_task p = elim p.read_strategy [
  | ReadStrategy.plain ↦ plain_get_task p
  | ReadStrategy.smart ↦ smart_get_task p
  | ReadStrategy.smart_no_reverse ↦ smart_get_task p
  | ReadStrategy.skipfail ↦ skipfail_get_task p
  | ReadStrategy.skipfail_no_reverse ↦ skipfail_get_task p
]

unfoldable pub use_results : CopyPriv → Task → BlockStatus → Option (CopyPriv × Bool)
use_results p t status = elim p.read_strategy [
  | ReadStrategy.plain ↦ plain_update_zones p t status
  | ReadStrategy.smart ↦ smart_update_zones p t status
  | ReadStrategy.smart_no_reverse ↦ smart_update_zones p t status
  | ReadStrategy.skipfail ↦ skipfail_update_zones p t status
  | ReadStrategy.skipfail_no_reverse ↦ skipfail_update_zones p t status
]
