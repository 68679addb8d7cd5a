-- ===== src/Copy/Journal/Behind.antt =====
-- The zones behind which the scan of the journal goes on.
use whdd_modify.Prelude.{
  ℕ, suc, ◌≤◌, ◌<◌, ◌≡◌, ◌≢◌, refl, ◌∙◌, Bool, Option, none, some, List, [], ◌∷◌, ◌++◌, arith,
  length, length-append, ◌==◌,
}
use whdd_modify.Copy.Zones.{Zone, find, total, covers, IsOrdered}
use whdd_modify.Copy.Zones.Order.{total-append}
use whdd_modify.Copy.Zones.Coverage.{covers-append, covered_in_order}
use whdd_modify.Copy.Journal.{Scan, append_zone, close_zone}

find-append : (a : ℕ) (xs ys : List Zone) → find a xs ≡ none → find a (xs ++ ys) ≡ find a ys
unfolding find
find-append a [] ys h = refl
find-append a (x ∷ xs) ys h = ground (arith, find-append a xs ys)

-- A zone behind the last one.
append-IsOrdered :
    (next lo b hi : ℕ) (xs : List Zone) (z : Zone)
    → IsOrdered next lo b xs
    → b ≤ z.begin_lba
    → z.begin_lba < z.end_lba
    → z.end_lba ≤ hi
    → z.addr < next
    → find z.addr xs ≡ none
    → IsOrdered next lo hi (xs ++ (z ∷ []))
unfolding find
append-IsOrdered next lo b hi [] z o h l u n f = (omega arith, l, n, refl, u)
append-IsOrdered next lo b hi (x ∷ xs) z o h l u n f = (
  o.0,
  o.1,
  o.2,
  find-append x.addr xs (z ∷ []) o.3 ∙ ground arith,
  append-IsOrdered next x.end_lba b hi xs z o.4 h l u n (ground arith),
)

-- Where the zones of the list end, and what is known of the zone that is open.
abbrev pub Behind : (ℕ → ℕ) → ℕ → Scan → Option Zone → Type 0
Behind journal i s none =
    IsOrdered s.next_addr 0 i s.zones × ((k : ℕ) → k < i → covers s.zones k ≡ (journal k == 0))
Behind journal i s (some z) =
    IsOrdered s.next_addr 0 z.begin_lba s.zones
    × (z.begin_lba < i)
    × (z.addr < s.next_addr)
    × (find z.addr s.zones ≡ none)
    × ((k : ℕ) → k < z.begin_lba → covers s.zones k ≡ (journal k == 0))
    × ((k : ℕ) → z.begin_lba ≤ k → k < i → journal k ≡ 0)

pub record Scanned (journal : ℕ → ℕ) (i : ℕ) (s : Scan) : Type 0 where
  pub counted : s.nb_zones ≡ length s.zones
  pub measured : s.den ≡ total s.zones
  pub behind : Behind journal i s s.current_zone

-- An open zone that ends before sector i makes the list complete up to i.
pub close-Behind :
    (journal : ℕ → ℕ) (i : ℕ) (s : Scan) (z : Zone) (defective : Bool)
    → Behind journal i s (some z)
    → Behind journal i (close_zone s z i defective) none
unfolding close_zone append_zone covers
close-Behind journal i s z d (o, l, n, f, before, since) = (
  append-IsOrdered s.next_addr 0 z.begin_lba i s.zones
      (record z { end_lba = i; end_lba_defective = d }) o (omega arith) l (omega arith) n f,
  λ k h. ground (
    arith,
    covers-append s.zones (record z { end_lba = i; end_lba_defective = d } ∷ []) k,
    before k,
    since k,
    covered_in_order s.next_addr 0 z.begin_lba s.zones k o,
  ),
)

pub close_counted :
    (s : Scan) (z : Zone) (i : ℕ) (d : Bool)
    → s.nb_zones ≡ length s.zones
    → (close_zone s z i d).nb_zones ≡ length (close_zone s z i d).zones
unfolding close_zone append_zone
close_counted s z i d e =
    omega (arith, e, length-append s.zones (record z { end_lba = i; end_lba_defective = d } ∷ []))

pub close_measured :
    (s : Scan) (z : Zone) (i : ℕ) (d : Bool)
    → s.den ≡ total s.zones
    → (close_zone s z i d).den ≡ total (close_zone s z i d).zones
unfolding close_zone append_zone
close_measured s z i d e =
    omega (arith, e, total-append s.zones (record z { end_lba = i; end_lba_defective = d } ∷ []))

IsOrdered-raise :
    (next lo b hi : ℕ) (xs : List Zone) → b ≤ hi → IsOrdered next lo b xs → IsOrdered next lo hi xs
IsOrdered-raise next lo b hi [] h o = omega arith
IsOrdered-raise next lo b hi (x ∷ xs) h o =
    (o.0, o.1, o.2, o.3, IsOrdered-raise next x.end_lba b hi xs h o.4)

-- A sector behind a complete list is not covered.
pub grow-Behind :
    (journal : ℕ → ℕ) (i : ℕ) (s : Scan)
    → journal i ≢ 0
    → Behind journal i s none
    → Behind journal (suc i) s none
grow-Behind journal i s h (o, c) = (
  IsOrdered-raise s.next_addr 0 i (suc i) s.zones (omega arith) o,
  λ k l. ground (arith, c k, covered_in_order s.next_addr 0 i s.zones k o),
)

pub between : {k i : ℕ} → i ≤ k → k < suc i → k ≡ i
between h l = omega arith
