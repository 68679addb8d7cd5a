-- ===== src/Copy/Current.antt =====
-- The current zone of the strategies, and the task that `give_task_proceeding_current_zone` makes of it.
use whdd_modify.Prelude.{
  ℕ, ◌≡◌, refl, sym, Bool, true, false, some, List, [], ◌∷◌, arith, length, ◌==◌, ◌>>=◌, subst, ◌≤◌,
  ◌<◌,
}
use whdd_modify.Copy.Zones.{Zone, find}
use whdd_modify.Copy.Zones.Order.{find_in_order}
use whdd_modify.Copy.State.{CopyPriv}
use whdd_modify.Copy.Strategies.{
  is_cons, first_zone, make_current, give_task_proceeding_current_zone, split_zone,
  read_forward_from_first,
}
use whdd_modify.Copy.Invariant.{goes_back, IsLive, IsValid, Keeps, Gives}
use whdd_modify.Copy.Choice.{All, Found, All-Found}

-- A zone that the list holds may become the current one.
pub make_current-Keeps :
    (p q : CopyPriv) (a : ℕ) (back : Bool) (z : Zone)
    → Keeps p q
    → find a q.unread_zones ≡ some z
    → (goes_back q.read_strategy ≡ false → back ≡ false)
    → Keeps p (make_current q a back)
make_current-Keeps p q a back z k f d = record {
  valid = record {
    ordered = k.valid.ordered;
    counted = k.valid.counted;
    live = (z, f);
    forward = d;
    jumps = k.valid.jumps;
    memory = k.valid.memory;
  };
  same_sectors = k.same_sectors;
  same_total = k.same_total;
  settings = ground arith;
}

-- A task is then at hand.
give-Gives :
    (p q : CopyPriv) (a : ℕ) (z : Zone)
    → Keeps p q
    → q.current_zone ≡ some a
    → find a q.unread_zones ≡ some z
    → Gives p (give_task_proceeding_current_zone q)
unfolding give_task_proceeding_current_zone
give-Gives p q a z k c f =
    simp (c, f)
      (
        k,
        record {
          addr = a;
          zone = z;
          is_current = c;
          found = f;
          some_sectors = ground (arith, lies);
          one_block = ground (arith, lies);
          in_zone = ground (arith, lies);
          border = ground (arith, lies);
        },
      )
  where
    lies :
        (z.addr ≡ a)
        × (a < q.next_addr)
        × (q.start_lba ≤ z.begin_lba)
        × (z.begin_lba < z.end_lba)
        × (z.end_lba ≤ q.end_lba)
    lies =
        find_in_order q.next_addr q.start_lba q.end_lba a q.unread_zones {z = z} k.valid.ordered f

pub Keeps-refl : (p : CopyPriv) → IsValid p → Keeps p p
Keeps-refl p v = record {
  valid = v;
  same_sectors = λ k. refl;
  same_total = refl;
  settings = ground arith;
}

pub current-Gives :
    (p q : CopyPriv) (a : ℕ) (back : Bool) (z : Zone)
    → Keeps p q
    → find a q.unread_zones ≡ some z
    → (goes_back q.read_strategy ≡ false → back ≡ false)
    → Gives p (give_task_proceeding_current_zone (make_current q a back))
current-Gives p q a back z k f d =
    give-Gives p (make_current q a back) a z (make_current-Keeps p q a back z k f d) refl f

-- The first zone read forward.
pub forward_first-Gives :
    (p q : CopyPriv) (zs : List Zone)
    → Keeps p q
    → q.unread_zones ≡ zs
    → is_cons zs ≡ true
    → Gives p (read_forward_from_first q)
unfolding find
forward_first-Gives p q [] k e c = cc
forward_first-Gives p q (z ∷ zs) k e c =
    subst
      (λ ys.
        Gives p
          (first_zone ys >>= λ y. give_task_proceeding_current_zone (make_current q y.addr false)))
      (sym e) (current-Gives p q z.addr false z k (rw e (ground arith)) (λ _. refl))

-- The zones of the state are found by their addresses.
pub zones_Found : (q : CopyPriv) → IsValid q → All (Found q.unread_zones) q.unread_zones
zones_Found q v = All-Found q.next_addr q.start_lba q.end_lba q.unread_zones v.ordered

pub strategy-split :
    (q : CopyPriv) (entry : Zone) (mid : ℕ)
    → (split_zone q entry mid).read_strategy ≡ q.read_strategy
unfolding split_zone
strategy-split q entry mid = refl

-- The second `assert` of the strategies.
pub zones_counted :
    (p : CopyPriv) (zs : List Zone)
    → p.nb_zones ≡ length zs
    → is_cons zs ≡ true
    → (p.nb_zones == 0) ≡ false
zones_counted p [] e c = cc
zones_counted p (z ∷ zs) e c = ground arith

-- A zone that is current already is read on.
pub proceed-Gives :
    (p : CopyPriv) (a : ℕ)
    → IsValid p
    → p.current_zone ≡ some a
    → Gives p (give_task_proceeding_current_zone p)
proceed-Gives p a v e =
    let (z, f) : IsLive (some a) p.unread_zones = subst (λ c. IsLive c p.unread_zones) e v.live in
    give-Gives p p a z (Keeps-refl p v) e f
