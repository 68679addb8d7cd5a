-- ===== src/Copy/Invariant.antt =====
-- The invariant of the copy procedure's state between two calls of a strategy, and what the two
-- strategy functions promise.
use whdd_modify.Prelude.{
  ℕ, ◌+◌, ◌*◌, ◌^◌, ◌≤◌, ◌<◌, ◌≡◌, ◌⊎◌, Bool, true, false, Option, none, some, List, length,
}
use whdd_modify.Copy.Zones.{Zone, find, zone_length, total, covers, IsOrdered}
use whdd_modify.Copy.State.{CopyPriv, ReadStrategy, sectors_at_once}
use whdd_modify.Copy.Strategies.{Task, Answer, given, refused}

abbrev pub is_skipfail : ReadStrategy → Bool
is_skipfail ReadStrategy.skipfail = true
is_skipfail ReadStrategy.skipfail_no_reverse = true
is_skipfail _ = false

-- The strategies that read a zone from its end at times.
abbrev pub goes_back : ReadStrategy → Bool
goes_back ReadStrategy.smart = true
goes_back ReadStrategy.skipfail = true
goes_back _ = false

-- The pointer is null or leads to a node of the list.
abbrev pub IsLive : Option ℕ → List Zone → Type 0
IsLive none zs = Unit {0}
IsLive (some a) zs = (z : Zone) × (find a zs ≡ some z)

pub record IsValid (p : CopyPriv) : Type 0 where
  pub ordered : IsOrdered p.next_addr p.start_lba p.end_lba p.unread_zones
  pub counted : p.nb_zones ≡ length p.unread_zones
  pub live : IsLive p.current_zone p.unread_zones
  pub forward : goes_back p.read_strategy ≡ false → p.current_zone_read_direction_reversive ≡ false
  pub jumps :
      (is_skipfail p.read_strategy ≡ false)
      ⊎ ((0 < p.skip_blocks) × (p.skip_blocks * sectors_at_once < 2 ^ 31))
  pub memory : p.allocates ≡ true

-- The sectors of a task lie at the end of the zone where reading goes on.
abbrev pub AtBorder : Bool → Zone → Task → Type 0
AtBorder true z t = t.lba_to_read + t.sectors_to_read ≡ z.end_lba
AtBorder false z t = t.lba_to_read ≡ z.begin_lba

pub record Offers (q : CopyPriv) (t : Task) : Type 0 where
  pub addr : ℕ
  pub zone : Zone
  pub is_current : q.current_zone ≡ some addr
  pub found : find addr q.unread_zones ≡ some zone
  pub some_sectors : 0 < t.sectors_to_read
  pub one_block : t.sectors_to_read ≤ sectors_at_once
  pub in_zone : t.sectors_to_read ≤ zone_length zone
  pub border : AtBorder q.current_zone_read_direction_reversive zone t

-- The fields that stay as `Open` has set them.
pub record SameSettings (p q : CopyPriv) : Type 0 where
  pub memory : q.allocates ≡ p.allocates
  pub skip_blocks : q.skip_blocks ≡ p.skip_blocks
  pub api : q.api ≡ p.api
  pub read_strategy : q.read_strategy ≡ p.read_strategy
  pub use_journal : q.use_journal ≡ p.use_journal
  pub start_lba : q.start_lba ≡ p.start_lba
  pub end_lba : q.end_lba ≡ p.end_lba
  pub dst_file_end_lba : q.dst_file_end_lba ≡ p.dst_file_end_lba

-- What choosing a task may do to the state: nothing that the set of unread sectors shows.
pub record Keeps (p q : CopyPriv) : Type 0 where
  pub valid : IsValid q
  pub same_sectors : (k : ℕ) → covers q.unread_zones k ≡ covers p.unread_zones k
  pub same_total : total q.unread_zones ≡ total p.unread_zones
  pub settings : SameSettings p q

-- A run of `get_task` that does not abort, keeps the sectors and gives a task that fits; only the
-- skipfail strategies may refuse.
abbrev pub Gives : CopyPriv → Option (CopyPriv × Answer) → Type 0
Gives p none = ⊥
Gives p (some (q, given t)) = Keeps p q × Offers q t
Gives p (some (q, refused)) = Keeps p q × (is_skipfail p.read_strategy ≡ true)
