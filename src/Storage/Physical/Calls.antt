-- ===== src/Storage/Physical/Calls.antt =====
-- internal/storage/physical_linux.go: the calls of sqlite that the shim guards.
use whiterun_music_bot.Base.{
  ℕ, List, ◌+◌, ◌-◌, ◌*◌, ◌/◌, ◌%◌, ◌≤◌, ◌<◌, ◌≡◌, max, Bool, false, ◌&&◌, Option, none, some,
  arith, leb, ◌==◌, if◌then◌else◌,
}
use whiterun_music_bot.Storage.Physical.{
  PhysicalQuota, GuardedCall, FileName, Files, Code, wal, shm, rounded, same_file, Stat, found,
  current_usage, observe_usage, answer, any_refused, returned, io_error, locked, guard,
}
use whiterun_music_bot.Storage.Slots.{PhysicalState, Saved, load}

-- allocateNative: where the allocation starts and its length; none is needed at length 0.
unfoldable pub allocate_native : ℕ → ℕ → ℕ × ℕ
unfolding rounded
allocate_native offset size =
    let start = offset / 4096 * 4096 in (start, rounded (offset + size) - start)

-- quotaWrite, of `n` bytes at `offset`: the first write of a log starts a cycle of it.
unfoldable pub quota_write : Bool → FileName → ℕ → ℕ → (Files → Files × ℕ) → GuardedCall
quota_write granted name n offset body = record {
  lock_granted = granted;
  target = some (name, offset + n);
  wal_reset = same_file name wal && offset == 0;
  body = body;
}

-- quotaSync.
unfoldable pub quota_sync : Bool → (Files → Files × ℕ) → GuardedCall
quota_sync granted body = record {
  lock_granted = granted;
  target = none;
  wal_reset = false;
  body = body;
}

-- The end that quotaShm charges for a region, with the system's page size.
unfoldable pub shm_end : ℕ → ℕ → ℕ → Bool → ℕ
shm_end page region size extend =
    let unit = max size page in
    if extend then ((region + 1) * size + unit - 1) / unit * unit else 4096

unfoldable pub quota_shm : Bool → ℕ → ℕ → ℕ → Bool → (Files → Files × ℕ) → GuardedCall
unfolding shm_end
quota_shm granted page region size extend body = record {
  lock_granted = granted;
  target = some (shm, shm_end page region size extend);
  wal_reset = false;
  body = body;
}

-- Whether quotaTruncate shrinks the file, so that it is not guarded.
abbrev pub shrinks : ℕ → Stat → Bool
shrinks size (found length blocks) = leb size length
shrinks size _ = false

unfoldable pub quota_truncate : Bool → FileName → ℕ → (Files → Files × ℕ) → GuardedCall
quota_truncate granted name size body = record {
  lock_granted = granted;
  target = some (name, size);
  wal_reset = false;
  body = body;
}

module _ (marshal : PhysicalState → Option (List ℕ)) (unmarshal : List ℕ → Option PhysicalState)
    (crc32 : List ℕ → ℕ) where
  -- quotaTruncate, when it shrinks the file: the call comes first.
  unfoldable pub shrink_loaded : PhysicalQuota → ℕ → Option Saved → PhysicalQuota × Code
  unfolding current_usage observe_usage
  shrink_loaded q rc none = (q, io_error)
  shrink_loaded q0 rc (some s) =
      let q = record q0 { saved = s } in
      if any_refused q.files
      then (q, io_error)
      else answer (returned rc) (observe_usage marshal crc32 false (current_usage q) q)

  unfoldable pub shrink_file : Bool → (Files → Files × ℕ) → PhysicalQuota → PhysicalQuota × Code
  unfolding shrink_loaded
  shrink_file granted body q0 =
      let r = body q0.files in
      locked granted (q0, io_error)
        (shrink_loaded (record q0 { files = r.0 }) r.1 (load unmarshal crc32 q0.saved))

module _ (marshal : PhysicalState → Option (List ℕ)) (unmarshal : List ℕ → Option PhysicalState)
    (crc32 : List ℕ → ℕ) where
  -- quotaTruncate.
  unfoldable pub truncate_file :
      Bool → FileName → ℕ → (Files → Files × ℕ) → PhysicalQuota → PhysicalQuota × Code
  unfolding shrink_file guard quota_truncate
  truncate_file granted name size body q =
      if shrinks size (q.files name)
      then shrink_file marshal unmarshal crc32 granted body q
      else guard marshal unmarshal crc32 (quota_truncate granted name size body) q

-- Rounding gives the least multiple of 4096 that is not below.
rounded_lem : (n : ℕ) → (rounded n % 4096 ≡ 0) × (n ≤ rounded n) × (rounded n < n + 4096)
unfolding rounded
rounded_lem n = ground arith

-- The range that is allocated before a write covers it, is made of whole blocks, and exceeds it by
-- less than a block at either end.
allocate_native_lem :
    (offset size : ℕ)
    → 0 < size
    → let r = allocate_native offset size in
      (r.0 ≤ offset)
      × (offset < r.0 + 4096)
      × (offset + size ≤ r.0 + r.1)
      × (r.0 + r.1 < offset + size + 4096)
      × (r.0 % 4096 ≡ 0)
      × (r.1 % 4096 ≡ 0)
unfolding allocate_native
allocate_native_lem offset size h = ground (arith, rounded_lem (offset + size))
