-- ===== src/Storage/Physical.antt =====
-- internal/storage/physical_linux.go: the guard that every write of the database passes. The files
-- are what Stat tells of each; the call that the guard admits is a parameter, since it is the
-- native file system's. Sizes are not bounded to 63 bits: they stay below 10 GiB.
mod Usage
pub mod Limit
pub mod Episodes
pub mod Alerts
pub mod Calls
unfoldable pub use Usage.*
use whiterun_music_bot.Base.{
  ℕ, ◌+◌, max, Bool, true, false, ◌&&◌, ◌||◌, not, List, Option, none, some, ltb, leb, ◌==◌,
  if◌then◌else◌,
}
use whiterun_music_bot.Storage.Slots.{PhysicalState, Saved, load, save_state}

-- What sqlite is told: that the disk is full, that the operation failed, or the call's own code.
pub data Code : Type 0 where
  full_disk : Code
  io_error : Code
  returned : ℕ → Code

-- One call of guard: whether the lock is granted, the file and the end of the write, and the call.
pub record GuardedCall : Type 0 where
  pub lock_granted : Bool
  pub target : Option (FileName × ℕ)
  pub wal_reset : Bool
  pub body : Files → Files × ℕ

-- The base that the call sets: at the first write of a log, the length of the main file; none
-- when it has none.
unfoldable pub next_base : Bool → Stat → ℕ → Option ℕ
next_base true (found size blocks) base = some (rounded size)
next_base true _ base = none
next_base false stat base = some base

abbrev pub with_base : ℕ → PhysicalQuota → PhysicalQuota
with_base base q = record q {
  saved = record q.saved { state = record q.saved.state { base = base } };
}

abbrev pub targets_main : Option (FileName × ℕ) → Bool
targets_main (some (main, end)) = true
targets_main _ = false

-- The tests of guard on the usage that the write would make.
unfoldable pub is_admitted : ℕ → Option (FileName × ℕ) → PhysicalQuota → Bool
unfolding projected_usage current_usage
is_admitted old_base target q =
    let u = projected_usage q target in
    let grows = ltb (current_usage q).files u.files in
    let fits = leb (u.files + physical_allocation_reserve) u.limit in
    (leb u.reserved u.limit
      || (not grows && q.saved.state.base == old_base)
      || (targets_main target && fits))
    && leb u.files u.limit
    && (not grows || fits)

-- The end of a handler whose last save may have failed.
abbrev pub answer : Code → PhysicalQuota × Bool → PhysicalQuota × Code
answer code (q, true) = (q, code)
answer code (q, false) = (q, io_error)

module _ (marshal : PhysicalState → Option (List ℕ)) (crc32 : List ℕ → ℕ) where
  -- save, on the quota; true when it succeeds.
  unfoldable pub save_quota : PhysicalQuota → PhysicalQuota × Bool
  save_quota q = let r = save_state marshal crc32 q.saved in (record q { saved = r.0 }, r.1)

  unfoldable pub observe_usage : Bool → PhysicalUsage → PhysicalQuota → PhysicalQuota × Bool
  unfolding noted save_quota
  observe_usage denied u q =
      let n = noted denied u q.saved.state in
      let q1 = record q { saved = record q.saved { state = n.state } } in
      if n.changed then save_quota q1 else (q1, true)

  -- A call that is not admitted.
  unfoldable pub refuse_call : ℕ → PhysicalQuota → PhysicalQuota × Code
  unfolding observe_usage current_usage
  refuse_call old_base q0 =
      let q = with_base old_base q0 in answer full_disk (observe_usage true (current_usage q) q)

  -- The call, and what is observed after it.
  unfoldable pub run_call : (Files → Files × ℕ) → PhysicalQuota → PhysicalQuota × Code
  unfolding observe_usage current_usage total
  run_call body q0 =
      let r = body q0.files in
      let q1 = record q0 { files = r.0 } in
      let q = record q1 { peak = max q1.peak (total r.0) } in
      if any_refused r.0
      then (q1, io_error)
      else if ltb q.saved.state.limit (total r.0)
      then (q, io_error)
      else answer (returned r.1) (observe_usage false (current_usage q1) q)

  -- An admitted call, once the usage it will make is observed.
  unfoldable pub admit_seen : (Files → Files × ℕ) → PhysicalQuota × Bool → PhysicalQuota × Code
  unfolding run_call
  admit_seen body (q, true) = run_call body q
  admit_seen body (q, false) = (q, io_error)

  -- An admitted call, once a new base is saved.
  unfoldable pub admit_saved :
      PhysicalUsage → (Files → Files × ℕ) → PhysicalQuota × Bool → PhysicalQuota × Code
  unfolding observe_usage admit_seen
  admit_saved u body (q, true) = admit_seen body (observe_usage false u q)
  admit_saved u body (q, false) = (q, io_error)

  unfoldable pub admit_call : ℕ → GuardedCall → PhysicalQuota → PhysicalQuota × Code
  unfolding save_quota admit_saved projected_usage
  admit_call old_base c q =
      let same = q.saved.state.base == old_base in
      admit_saved (projected_usage q c.target) c.body (if same then (q, true) else save_quota q)

module _ (marshal : PhysicalState → Option (List ℕ)) (crc32 : List ℕ → ℕ) where
  -- guard, from the projection on.
  unfoldable pub guard_projected : ℕ → GuardedCall → PhysicalQuota → PhysicalQuota × Code
  guard_projected old_base c q =
      if any_refused q.files
      then (q, io_error)
      else if is_admitted old_base c.target q
      then admit_call marshal crc32 old_base c q
      else refuse_call marshal crc32 old_base q

  -- guard, once the base is computed.
  unfoldable pub guard_based : GuardedCall → PhysicalQuota → Option ℕ → PhysicalQuota × Code
  guard_based c q none = (q, io_error)
  guard_based c q (some base) = guard_projected q.saved.state.base c (with_base base q)

  -- guard, once the state is loaded.
  unfoldable pub guard_loaded : GuardedCall → PhysicalQuota → Option Saved → PhysicalQuota × Code
  guard_loaded c q none = (q, io_error)
  guard_loaded c q0 (some saved) =
      let q = record q0 { saved = saved } in
      guard_based c q (next_base c.wal_reset (q.files main) saved.state.base)

-- locked: the body runs under the file lock, when that is granted.
abbrev pub locked {ℓ} : {A : Type ℓ} → Bool → A → A → A
locked true refusal result = result
locked false refusal result = refusal

-- guard.
unfoldable pub guard :
    (PhysicalState → Option (List ℕ))
    → (List ℕ → Option PhysicalState)
    → (List ℕ → ℕ)
    → GuardedCall
    → PhysicalQuota
    → PhysicalQuota × Code
guard marshal unmarshal crc32 c q =
    locked c.lock_granted (q, io_error)
      (guard_loaded marshal crc32 c q (load unmarshal crc32 q.saved))
