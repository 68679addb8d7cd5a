-- ===== src/Copy/Split.antt =====
-- `split_zone`: the two nodes stand for the sectors of the one.
use whdd_modify.Prelude.{
  ℕ, ◌+◌, ◌≤◌, ◌<◌, ◌≡◌, refl, ◌∙◌, ap, false, none, some, List, [], ◌∷◌, arith,
}
use whdd_modify.Copy.Zones.{Zone, find, splice, store, insert_after, covers, IsOrdered}
use whdd_modify.Copy.Zones.Order.{
  IsOrdered-allocate, find_in_order, find_fresh, total-splice, length-splice, find-splice_self,
  find-splice_fresh, splice-IsOrdered,
}
use whdd_modify.Copy.Zones.Coverage.{covers-splice_same}
use whdd_modify.Copy.State.{CopyPriv}
use whdd_modify.Copy.Strategies.{split_zone}
use whdd_modify.Copy.Invariant.{Keeps}

store-insert_after :
    (a : ℕ) (f : Zone → Zone) (n : Zone) (zs : List Zone)
    → store a f (insert_after a n zs) ≡ splice a (λ z. f z ∷ n ∷ []) zs
unfolding store insert_after splice
store-insert_after a f n [] = refl
store-insert_after a f n (z ∷ zs) = ground (arith, store-insert_after a f n zs)

module _ (q : CopyPriv) (entry : Zone) (mid : ℕ) where
  abbrev pub left_part : Zone
  left_part = record entry { end_lba = mid; end_lba_defective = false }

  abbrev pub right_part : Zone
  right_part = record entry { addr = q.next_addr; begin_lba = mid; begin_lba_defective = false }

  abbrev parts : Zone → List Zone
  parts z = record z { end_lba = mid; end_lba_defective = false } ∷ right_part ∷ []

  zones-split : (split_zone q entry mid).unread_zones ≡ splice entry.addr parts q.unread_zones
  unfolding split_zone
  zones-split = store-insert_after entry.addr _ right_part q.unread_zones

module _ (p q : CopyPriv) (entry : Zone) (mid : ℕ) (k : Keeps p q)
    (f : find entry.addr q.unread_zones ≡ some entry) (b : entry.begin_lba < mid)
    (e : mid < entry.end_lba) where
  placed :
      (entry.addr < q.next_addr) × (q.start_lba ≤ entry.begin_lba) × (entry.end_lba ≤ q.end_lba)
  placed = ground (
    arith,
    find_in_order q.next_addr q.start_lba q.end_lba entry.addr q.unread_zones {z = entry}
        k.valid.ordered,
  )

  split-IsOrdered :
      IsOrdered
        (q.next_addr + 1)
        q.start_lba
        q.end_lba
        (splice entry.addr (parts q entry mid) q.unread_zones)
  unfolding find
  split-IsOrdered =
      splice-IsOrdered entry.addr (parts q entry mid) {z = entry} q.next_addr (q.next_addr + 1)
        q.start_lba q.end_lba q.unread_zones (omega arith) k.valid.ordered f
        (λ b rest h n. ground arith)
        (λ rest g o.
          let free : find q.next_addr rest ≡ none =
            find_fresh q.next_addr entry.end_lba q.end_lba q.next_addr rest o (omega arith) in
          (
            omega arith,
            b,
            omega (arith, placed),
            ground (arith, placed),
            (
              omega arith,
              e,
              omega arith,
              free,
              IsOrdered-allocate entry.end_lba q.end_lba q.next_addr rest o,
            ),
          ))

  pub find-left_part :
      find entry.addr (split_zone q entry mid).unread_zones ≡ some (left_part q entry mid)
  unfolding find
  find-left_part = rw (zones-split q entry mid) (
      find-splice_self entry.addr (parts q entry mid) {z = entry} q.unread_zones
        (left_part q entry mid) f (λ rest. ground arith))

  pub find-right_part :
      find q.next_addr (split_zone q entry mid).unread_zones ≡ some (right_part q entry mid)
  unfolding find
  find-right_part = rw (zones-split q entry mid) (
      find-splice_fresh entry.addr (parts q entry mid) {z = entry} q.next_addr q.start_lba q.end_lba
        q.next_addr q.unread_zones (right_part q entry mid) k.valid.ordered (omega arith) f
        (λ rest. ground (arith, placed)))

  split-covers :
      (n : ℕ)
      → covers (splice entry.addr (parts q entry mid) q.unread_zones) n ≡ covers q.unread_zones n
  unfolding covers
  split-covers n =
      covers-splice_same entry.addr (parts q entry mid) {z = entry} n q.unread_zones f
        (ground arith)

  -- The state after the split is as good as the one before.
  pub split-Keeps : q.current_zone ≡ none → Keeps p (split_zone q entry mid)
  unfolding split_zone
  split-Keeps c = record {
    valid = record {
      ordered = rw (zones-split q entry mid) split-IsOrdered;
      counted = rw (zones-split q entry mid) (
          omega (
            arith,
            k.valid.counted,
            length-splice entry.addr (parts q entry mid) {z = entry} q.unread_zones f,
          ));
      live = simp c tt;
      forward = k.valid.forward;
      jumps = k.valid.jumps;
      memory = k.valid.memory;
    };
    same_sectors =
        λ n. ap (λ zs. covers zs n) (zones-split q entry mid) ∙ split-covers n ∙ k.same_sectors n;
    same_total = rw (zones-split q entry mid) (
        omega (
          arith,
          k.same_total,
          total-splice entry.addr (parts q entry mid) {z = entry} q.unread_zones f,
        ));
    settings = ground arith;
  }
