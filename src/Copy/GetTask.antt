-- ===== src/Copy/GetTask.antt =====
-- `get_task` of every strategy: it does not abort, keeps the unread sectors, and gives a task at a
-- border of an unread zone.
use whdd_modify.Prelude.{◌<◌, ◌≡◌, refl, sym, true, some, List, [], ◌∷◌, arith, ◌>>=◌, subst}
use whdd_modify.Copy.Zones.{Zone, find}
use whdd_modify.Copy.Zones.Order.{find_in_order}
use whdd_modify.Copy.State.{CopyPriv, ReadStrategy}
use whdd_modify.Copy.Strategies.{given, is_cons, first_zone, plain_get_task, get_task, plain_task}
use whdd_modify.Copy.Invariant.{IsValid, Gives}
use whdd_modify.Copy.Current.{make_current-Keeps, Keeps-refl}
use whdd_modify.Copy.Smart.{smart_get_task-Gives}
use whdd_modify.Copy.Skipfail.{skipfail_get_task-Gives}

plain_get_task-Gives :
    (p : CopyPriv) (zs : List Zone)
    → IsValid p
    → p.read_strategy ≡ ReadStrategy.plain
    → p.unread_zones ≡ zs
    → is_cons zs ≡ true
    → Gives p (plain_get_task p)
unfolding plain_get_task
plain_get_task-Gives p [] v s e full = cc
plain_get_task-Gives p (z ∷ zs) v s e full =
    subst
      (λ ys. Gives p (
        first_zone ys >>= λ y.
        some (record p { current_zone = some y.addr }, given (plain_task y))))
      (sym e)
      (
        make_current-Keeps p p z.addr p.current_zone_read_direction_reversive z (Keeps-refl p v)
            found v.forward,
        record {
          addr = z.addr;
          zone = z;
          is_current = refl;
          found = found;
          some_sectors = ground (arith, lies);
          one_block = ground arith;
          in_zone = ground arith;
          border = rw (v.forward (ground arith)) refl;
        },
      )
  where
    found : find z.addr p.unread_zones ≡ some z
    found = rw e (unfold find in ground arith)

    lies : z.begin_lba < z.end_lba
    lies = ground (
      arith,
      find_in_order p.next_addr p.start_lba p.end_lba z.addr p.unread_zones {z = z} v.ordered,
    )

-- In a valid state with unread sectors, no strategy aborts (no `assert` fails and no null pointer is
-- dereferenced); valid means also that there is memory for a zone that is split and, with a skipfail
-- strategy, that the jump is of some blocks and fits an int in sectors. The state stays valid, the set of unread sectors is the same, and the task, of 1
-- to 256 sectors, lies at a border of the current zone. Only the skipfail strategies may refuse.
pub get_task-Gives :
    (p : CopyPriv) → IsValid p → is_cons p.unread_zones ≡ true → Gives p (get_task p)
unfolding get_task
get_task-Gives p v full = go p.read_strategy refl
  where
    go : (rs : ReadStrategy) → p.read_strategy ≡ rs → Gives p (get_task p)
    go ReadStrategy.plain e =
        simp (e, get_task) (plain_get_task-Gives p p.unread_zones v e refl full)
    go ReadStrategy.smart e =
        simp (e, get_task) (smart_get_task-Gives p v (ground arith) (ground arith) full)
    go ReadStrategy.smart_no_reverse e =
        simp (e, get_task) (smart_get_task-Gives p v (ground arith) (ground arith) full)
    go ReadStrategy.skipfail e =
        simp (e, get_task) (skipfail_get_task-Gives p v (ground arith) full)
    go ReadStrategy.skipfail_no_reverse e =
        simp (e, get_task) (skipfail_get_task-Gives p v (ground arith) full)
