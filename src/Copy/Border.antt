-- ===== src/Copy/Border.antt =====
-- The sectors of a task and the zone that is left without them.
use whdd_modify.Prelude.{
  ℕ, ◌+◌, ◌-◌, ◌≤◌, ◌<◌, ◌≡◌, refl, Bool, true, false, not, ◌&&◌, Option, none, some, List, [], ◌∷◌,
  arith,
}
use whdd_modify.Procedure.{BlockStatus, failed}
use whdd_modify.Copy.Zones.{Zone, splice, store, unlink, zone_length, total, within, covers}
use whdd_modify.Copy.State.{CopyPriv, ReadStrategy}
use whdd_modify.Copy.Strategies.{Task, moved, drop_if_empty}
use whdd_modify.Copy.Invariant.{IsValid, AtBorder, SameSettings}

-- The sectors that a task names.
abbrev pub in_task : Task → ℕ → Bool
in_task t k = within t.lba_to_read (t.lba_to_read + t.sectors_to_read) k

pub record Removed (p : CopyPriv) (t : Task) (q : CopyPriv) : Type 0 where
  pub valid : IsValid q
  pub gone : (k : ℕ) → covers q.unread_zones k ≡ (covers p.unread_zones k && not (in_task t k))
  pub fewer : total q.unread_zones + t.sectors_to_read ≡ total p.unread_zones
  pub settings : SameSettings p q

-- Only the plain strategy reports a failed read, which ends the procedure.
abbrev pub aborts_on : ReadStrategy → BlockStatus → Bool
aborts_on ReadStrategy.plain status = failed status
aborts_on _ status = false

abbrev pub Takes : CopyPriv → Task → BlockStatus → Option (CopyPriv × Bool) → Type 0
Takes p t status none = ⊥
Takes p t status (some (q, r)) = Removed p t q × (r ≡ aborts_on p.read_strategy status)

-- The zone that is left, by direction.
abbrev pub rest_of : Bool → Task → BlockStatus → Zone → Zone
rest_of true t status z = record z {
  end_lba = z.end_lba - t.sectors_to_read;
  end_lba_defective = failed status;
}
rest_of false t status z = record z {
  begin_lba = z.begin_lba + t.sectors_to_read;
  begin_lba_defective = failed status;
}

pub moved_lem :
    (back : Bool) (t : Task) (status : BlockStatus) (z : Zone)
    → AtBorder back z t
    → t.sectors_to_read ≤ zone_length z
    → z.begin_lba < z.end_lba
    → moved back t status z ≡ some (rest_of back t status z)
unfolding moved
moved_lem true t status z h n l = ground arith
moved_lem false t status z h n l = ground arith

pub rest_lies :
    (back : Bool) (t : Task) (status : BlockStatus) (z : Zone)
    → AtBorder back z t
    → t.sectors_to_read ≤ zone_length z
    → z.begin_lba < z.end_lba
    → let y = rest_of back t status z in
      (y.addr ≡ z.addr)
      × (z.begin_lba ≤ y.begin_lba)
      × (y.begin_lba ≤ y.end_lba)
      × (y.end_lba ≤ z.end_lba)
      × (zone_length y + t.sectors_to_read ≡ zone_length z)
      × (z.begin_lba ≤ t.lba_to_read)
      × (t.lba_to_read + t.sectors_to_read ≤ z.end_lba)
rest_lies true t status z h n l = ground arith
rest_lies false t status z h n l = ground arith

pub task_in_zone :
    (back : Bool) (t : Task) (z : Zone)
    → AtBorder back z t
    → t.sectors_to_read ≤ zone_length z
    → z.begin_lba < z.end_lba
    → (z.begin_lba ≤ t.lba_to_read) × (t.lba_to_read + t.sectors_to_read ≤ z.end_lba)
task_in_zone true t z h n l = omega arith
task_in_zone false t z h n l = omega arith

pub rest_covers :
    (back : Bool) (t : Task) (status : BlockStatus) (z : Zone) (k : ℕ)
    → AtBorder back z t
    → t.sectors_to_read ≤ zone_length z
    → z.begin_lba < z.end_lba
    → let y = rest_of back t status z in
      within y.begin_lba y.end_lba k ≡ (within z.begin_lba z.end_lba k && not (in_task t k))
rest_covers true t status z k h n l = ground arith
rest_covers false t status z k h n l = ground arith

pub unlink-store :
    (a : ℕ) (y : Zone) (zs : List Zone)
    → y.addr ≡ a
    → unlink a (store a (λ _. y) zs) ≡ splice a (λ _. []) zs
unfolding unlink store splice
unlink-store a y [] e = refl
unlink-store a y (z ∷ zs) e = ground (arith, unlink-store a y zs)

pub drop_empty :
    (p : CopyPriv) (a : ℕ) (z : Zone)
    → z.begin_lba ≡ z.end_lba
    → drop_if_empty p a z
      ≡ some (record p {
        unread_zones = unlink a p.unread_zones;
        nb_zones = p.nb_zones - 1;
        current_zone = none;
      })
unfolding drop_if_empty
drop_empty p a z e = ground arith

pub drop_kept :
    (p : CopyPriv) (a : ℕ) (z : Zone) → z.begin_lba < z.end_lba → drop_if_empty p a z ≡ some p
unfolding drop_if_empty
drop_kept p a z e = ground arith
