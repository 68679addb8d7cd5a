-- ===== src/Copy/UseResults.antt =====
-- `use_results` of every strategy: the sectors of the task leave the unread zones, and nothing else.
use whdd_modify.Prelude.{
  ℕ, ◌+◌, ◌-◌, ◌≤◌, ◌<◌, ◌≡◌, refl, ◌∙◌, inl, inr, Bool, true, false, not, ◌&&◌, none, some, List,
  [], ◌∷◌, arith, ◌==◌, ==_iff, if◌then◌else◌, Bool-cases,
}
use whdd_modify.Procedure.{BlockStatus}
use whdd_modify.Copy.Zones.{
  Zone, find, splice, store, unlink, zone_length, total, within, covers, IsOrdered,
}
use whdd_modify.Copy.Zones.Order.{
  IsOrdered-lower, find_in_order, total-splice, length-splice, find-splice_self, splice-IsOrdered,
}
use whdd_modify.Copy.Zones.Coverage.{covers-splice_without}
use whdd_modify.Copy.State.{CopyPriv, ReadStrategy}
use whdd_modify.Copy.Strategies.{
  Task, drop_if_empty, common_update_zones, plain_update_zones, smart_update_zones,
  skipfail_update_zones, use_results,
}
use whdd_modify.Copy.Invariant.{IsValid, Offers}
use whdd_modify.Copy.Border.{
  in_task, Removed, Takes, rest_of, moved_lem, rest_lies, rest_covers, unlink-store, drop_empty,
  drop_kept,
}

module _ (p : CopyPriv) (t : Task) (status : BlockStatus) (v : IsValid p) (o : Offers p t) where
  abbrev back : Bool
  back = p.current_zone_read_direction_reversive

  abbrev left : Zone
  left = rest_of back t status o.zone

  lies :
      (o.zone.addr ≡ o.addr)
      × (o.addr < p.next_addr)
      × (p.start_lba ≤ o.zone.begin_lba)
      × (o.zone.begin_lba < o.zone.end_lba)
      × (o.zone.end_lba ≤ p.end_lba)
  lies =
      find_in_order p.next_addr p.start_lba p.end_lba o.addr p.unread_zones {z = o.zone} v.ordered
        o.found

  left_lies :
      (left.addr ≡ o.addr)
      × (o.zone.begin_lba ≤ left.begin_lba)
      × (left.begin_lba ≤ left.end_lba)
      × (left.end_lba ≤ o.zone.end_lba)
      × (zone_length left + t.sectors_to_read ≡ zone_length o.zone)
      × (o.zone.begin_lba ≤ t.lba_to_read)
      × (t.lba_to_read + t.sectors_to_read ≤ o.zone.end_lba)
  left_lies = ground (arith, rest_lies back t status o.zone o.border o.in_zone lies.3, lies)

  left_covers :
      (k : ℕ)
      → within left.begin_lba left.end_lba k
        ≡ (within o.zone.begin_lba o.zone.end_lba k && not (in_task t k))
  left_covers k = rest_covers back t status o.zone k o.border o.in_zone lies.3

  -- The list after the task, whether the zone is left or gone.
  module _ (g : Zone → List Zone)
      (covered : (k : ℕ) → covers (g o.zone) k ≡ within left.begin_lba left.end_lba k)
      (same : total (g o.zone) ≡ zone_length left) where
    splice_gone :
        (k : ℕ)
        → covers (splice o.addr g p.unread_zones) k ≡ (covers p.unread_zones k && not (in_task t k))
    splice_gone k =
        covers-splice_without o.addr g {z = o.zone} k p.next_addr p.start_lba p.end_lba
          t.lba_to_read (t.lba_to_read + t.sectors_to_read) p.unread_zones v.ordered o.found
          left_lies.5 left_lies.6 (covered k ∙ left_covers k)

    splice_fewer : total (splice o.addr g p.unread_zones) + t.sectors_to_read ≡ total p.unread_zones
    splice_fewer =
        omega (arith, total-splice o.addr g {z = o.zone} p.unread_zones o.found, same, left_lies)

  stored_IsOrdered :
      left.begin_lba < left.end_lba
      → IsOrdered p.next_addr p.start_lba p.end_lba (splice o.addr (λ _. left ∷ []) p.unread_zones)
  unfolding find
  stored_IsOrdered w =
      splice-IsOrdered o.addr (λ _. left ∷ []) {z = o.zone} p.next_addr p.next_addr p.start_lba
        p.end_lba p.unread_zones (omega arith) v.ordered o.found
        (λ b rest h n. ground (arith, left_lies))
        (λ rest g d. (
          left_lies.1,
          w,
          ground (arith, left_lies, lies),
          rw left_lies.0 g,
          IsOrdered-lower p.next_addr p.end_lba o.zone.end_lba left.end_lba rest left_lies.3 d,
        ))

  removed_IsOrdered :
      IsOrdered p.next_addr p.start_lba p.end_lba (splice o.addr (λ _. []) p.unread_zones)
  removed_IsOrdered =
      splice-IsOrdered o.addr (λ _. []) {z = o.zone} p.next_addr p.next_addr p.start_lba p.end_lba
        p.unread_zones (omega arith) v.ordered o.found (λ b rest h n. refl)
        (λ rest g d.
          IsOrdered-lower p.next_addr p.end_lba o.zone.end_lba o.zone.begin_lba rest
            (omega (arith, lies)) d)

  abbrev shrunk : CopyPriv
  shrunk = record p { unread_zones = store o.addr (λ _. left) p.unread_zones }

  abbrev emptied : CopyPriv
  emptied = record p {
    unread_zones = unlink o.addr (store o.addr (λ _. left) p.unread_zones);
    nb_zones = p.nb_zones - 1;
    current_zone = none;
  }

  common_lem : common_update_zones p t status ≡ drop_if_empty shrunk o.addr left
  unfolding common_update_zones
  common_lem = simp (
    o.is_current,
    common_update_zones,
    o.found,
    moved_lem back t status o.zone o.border o.in_zone lies.3,
  )

  find_head : (rest : List Zone) → find o.addr (left ∷ rest) ≡ some left
  unfolding find
  find_head rest = ground (arith, left_lies, lies)

  shrunk-Removed : left.begin_lba < left.end_lba → Removed p t shrunk
  unfolding covers store
  shrunk-Removed w = record {
    valid = record {
      ordered = stored_IsOrdered w;
      counted = omega (
        arith,
        v.counted,
        length-splice o.addr (λ _. left ∷ []) {z = o.zone} p.unread_zones o.found,
      );
      live = rw o.is_current (
        left,
        find-splice_self o.addr (λ _. left ∷ []) {z = o.zone} p.unread_zones left o.found
            (λ rest. find_head rest),
      );
      forward = v.forward;
      jumps = v.jumps;
      memory = v.memory;
    };
    gone = splice_gone (λ _. left ∷ []) (λ k. ground arith) (omega arith);
    fewer = splice_fewer (λ _. left ∷ []) (λ k. ground arith) (omega arith);
    settings = ground arith;
  }

  emptied-Removed : left.begin_lba ≡ left.end_lba → Removed p t emptied
  unfolding covers
  emptied-Removed w =
      rw (unlink-store o.addr left p.unread_zones (ground (arith, left_lies, lies))) (record {
        valid = record {
          ordered = removed_IsOrdered;
          counted = omega (
            arith,
            v.counted,
            length-splice o.addr (λ _. []) {z = o.zone} p.unread_zones o.found,
          );
          live = tt;
          forward = v.forward;
          jumps = v.jumps;
          memory = v.memory;
        };
        gone = splice_gone (λ _. []) (λ k. ground arith) (omega arith);
        fewer = splice_fewer (λ _. []) (λ k. ground arith) (omega arith);
        settings = ground arith;
      })

  -- The state after `common_update_zones`.
  common_update_zones-Removed :
      (q : CopyPriv) × (common_update_zones p t status ≡ some q) × Removed p t q
  unfolding drop_if_empty
  common_update_zones-Removed = elim (Bool-cases (left.begin_lba == left.end_lba)) [
    | inl done ↦ (
      emptied,
      common_lem ∙ drop_empty shrunk o.addr left ((==_iff _ _).0 done),
      emptied-Removed ((==_iff _ _).0 done),
    )
    | inr more ↦ (
      shrunk,
      common_lem ∙ drop_kept shrunk o.addr left (ground (arith, left_lies)),
      shrunk-Removed (ground (arith, left_lies)),
    )
  ]

let_go-Removed :
    (p q : CopyPriv) (t : Task) → Removed p t q → Removed p t (record q { current_zone = none })
let_go-Removed p q t r = record {
  valid = record {
    ordered = r.valid.ordered;
    counted = r.valid.counted;
    live = tt;
    forward = r.valid.forward;
    jumps = r.valid.jumps;
    memory = r.valid.memory;
  };
  gone = r.gone;
  fewer = r.fewer;
  settings = ground arith;
}

let_go_if-Removed :
    (p q : CopyPriv) (t : Task) (b : Bool)
    → Removed p t q
    → Removed p t (if b then record q { current_zone = none } else q)
let_go_if-Removed p q t true r = let_go-Removed p q t r
let_go_if-Removed p q t false r = r

-- After a task that `get_task` gave, `use_results` does not abort whatever the outcome of the
-- read. The state stays valid, exactly the sectors of the task leave the unread zones, and only the
-- plain strategy, after a failed read, asks for the procedure to end.
pub use_results-Takes :
    (p : CopyPriv) (t : Task) (status : BlockStatus)
    → IsValid p
    → Offers p t
    → Takes p t status (use_results p t status)
unfolding use_results plain_update_zones smart_update_zones skipfail_update_zones
use_results-Takes p t status v o =
    let (q, e, r) = common_update_zones-Removed p t status v o in go q e r p.read_strategy refl
  where
    go :
        (q : CopyPriv)
        → common_update_zones p t status ≡ some q
        → Removed p t q
        → (rs : ReadStrategy) → p.read_strategy ≡ rs
        → Takes p t status (use_results p t status)
    go q e r ReadStrategy.plain s = simp (s, use_results, e) (r, refl)
    go q e r ReadStrategy.smart s = simp (s, use_results, e) (let_go_if-Removed p q t _ r, refl)
    go q e r ReadStrategy.smart_no_reverse s =
        simp (s, use_results, e) (let_go_if-Removed p q t _ r, refl)
    go q e r ReadStrategy.skipfail s = simp (s, use_results, e) (let_go_if-Removed p q t _ r, refl)
    go q e r ReadStrategy.skipfail_no_reverse s =
        simp (s, use_results, e) (let_go_if-Removed p q t _ r, refl)
