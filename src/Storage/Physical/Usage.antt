-- ===== src/Storage/Physical/Usage.antt =====
-- internal/storage/physical_linux.go: what the files of the database take, and what is observed of
-- it: when the quota is blocked and which alerts are raised.
use whiterun_music_bot.Base.{
  ℕ, ◌+◌, ◌-◌, ◌*◌, ◌/◌, max, Bool, true, false, ◌&&◌, ◌||◌, not, Option, none, some, ltb, leb,
  ◌==◌, if◌then◌else◌,
}
use whiterun_music_bot.Storage.Slots.{PhysicalState, PhysicalEvent, no_event, Saved}

-- The entries of fileNames, in order.
pub data FileName : Type 0 where
  main wal shm journal control lock_file : FileName

abbrev pub same_file : FileName → FileName → Bool
same_file main main = true
same_file wal wal = true
same_file shm shm = true
same_file journal journal = true
same_file control control = true
same_file lock_file lock_file = true
same_file _ _ = false

-- What os.Stat gives: no such file, another error, or the size and the blocks of 512 bytes.
pub data Stat : Type 0 where
  missing : Stat
  refused : Stat
  found : ℕ → ℕ → Stat

abbrev pub Files : Type 0
Files = FileName → Stat

abbrev pub physical_allocation_reserve : ℕ
physical_allocation_reserve = 65536

unfoldable pub rounded : ℕ → ℕ
rounded n = if n == 0 then 0 else (n + 4095) / 4096 * 4096

-- What a file counts, and its rounded length.
unfoldable pub charge : Stat → ℕ
charge (found size blocks) = max (rounded size) (blocks * 512)
charge _ = 0

unfoldable pub rounded_length : Stat → ℕ
rounded_length (found size blocks) = rounded size
rounded_length _ = 0

abbrev pub is_refused : Stat → Bool
is_refused refused = true
is_refused _ = false

abbrev pub any_refused : Files → Bool
any_refused f =
    is_refused (f main)
    || is_refused (f wal)
    || is_refused (f shm)
    || is_refused (f journal)
    || is_refused (f control)
    || is_refused (f lock_file)

unfoldable pub total : Files → ℕ
unfolding charge
total f =
    charge (f main)
    + charge (f wal)
    + charge (f shm)
    + charge (f journal)
    + charge (f control)
    + charge (f lock_file)

pub record PhysicalUsage : Type 0 where
  pub files : ℕ
  pub reserved : ℕ
  pub limit : ℕ
  pub blocked : Bool
  pub peak : ℕ

pub record PhysicalQuota : Type 0 where
  pub files : Files
  pub saved : Saved
  pub peak : ℕ

-- The files, and the space that a checkpoint of the log may still take.
abbrev pub reserve : ℕ → ℕ → ℕ → ℕ → ℕ
reserve files base wal_size main_size =
    files + (base + wal_size - main_size) + physical_allocation_reserve

-- usage without a target.
unfoldable pub current_usage : PhysicalQuota → PhysicalUsage
current_usage q =
    let s = q.saved.state in
    record {
      files = total q.files;
      reserved = reserve (total q.files) s.base (charge (q.files wal)) (charge (q.files main));
      limit = s.limit;
      blocked = s.exhausted;
      peak = q.peak;
    }

-- How far a write that ends at `end` extends its target.
unfoldable pub growth : Files → Option (FileName × ℕ) → ℕ
growth f none = 0
growth f (some (target, end)) = rounded end - rounded_length (f target)

abbrev pub grown : FileName → Option (FileName × ℕ) → ℕ → ℕ
grown name none g = 0
grown name (some (target, end)) g = if same_file name target then g else 0

-- The first result of projectedUsage; the second is current_usage.
unfoldable pub projected_usage : PhysicalQuota → Option (FileName × ℕ) → PhysicalUsage
unfolding current_usage
projected_usage q target =
    let g = growth q.files target in
    let files = total q.files + g in
    let w = charge (q.files wal) + grown wal target g in
    let m = charge (q.files main) + grown main target g in
    record (current_usage q) { files = files; reserved = reserve files q.saved.state.base w m }

abbrev pub idle : PhysicalEvent → Bool
idle e = not e.pending || e.delivered

abbrev pub raised : ℕ → PhysicalEvent
raised used = record no_event { pending = true; used = used }

-- The tests of observe, each on the state that the ones before it leave.
abbrev pub should_block : Bool → PhysicalUsage → PhysicalState → Bool
should_block denied u s = (denied || leb u.limit u.reserved) && not s.exhausted

abbrev pub low : PhysicalUsage → Bool
low u = ltb u.reserved (u.limit * 85 / 100)

abbrev pub unblocks : Bool → PhysicalUsage → PhysicalState → Bool
unblocks denied u s = not denied && (low u && s.exhausted)

abbrev pub arms : PhysicalUsage → PhysicalState → Bool
arms u s = low u && not s.armed

abbrev pub high : PhysicalUsage → Bool
high u = leb (u.limit * 9 / 10) u.reserved

abbrev pub opens : Bool → PhysicalUsage → PhysicalState → Bool
opens denied u s = (high u || denied) && (s.armed && (idle s.warn && idle s.full))

abbrev pub warns : Bool → PhysicalUsage → PhysicalState → Bool
warns denied u s = (high u || denied) && (high u && not s.warn.pending)

abbrev pub fills : Bool → PhysicalUsage → PhysicalState → Bool
fills denied u s = (denied || leb u.limit u.reserved) && not s.full.pending

-- The state of the quota, and whether a test before changed it.
pub record Noted : Type 0 where
  pub state : PhysicalState
  pub changed : Bool

-- The body of one test.
abbrev pub note : Bool → PhysicalState → Noted → Noted
note true s n = record { state = s; changed = true }
note false s n = n

unfoldable pub note_exhausted : Bool → PhysicalUsage → Noted → Noted
note_exhausted denied u n =
    let m = note (should_block denied u n.state) (record n.state { exhausted = true }) n in
    note (unblocks denied u m.state) (record m.state { exhausted = false }) m

unfoldable pub note_armed : PhysicalUsage → Noted → Noted
note_armed u n = note (arms u n.state) (record n.state { armed = true }) n

abbrev pub new_episode : PhysicalState → PhysicalState
new_episode s = record s {
  episode = s.episode + 1;
  warn = no_event;
  full = no_event;
  armed = false;
}

unfoldable pub note_events : Bool → PhysicalUsage → Noted → Noted
note_events denied u n =
    let m = note (opens denied u n.state) (new_episode n.state) n in
    let w = note (warns denied u m.state) (record m.state { warn = raised u.reserved }) m in
    note (fills denied u w.state) (record w.state { full = raised u.reserved }) w

-- What observe makes of the state, before it saves it.
unfoldable pub noted : Bool → PhysicalUsage → PhysicalState → Noted
unfolding note_exhausted note_armed note_events
noted denied u s =
    note_events denied u
      (note_armed u (note_exhausted denied u (record { state = s; changed = false })))
