-- ===== src/Storage/Physical/Episodes.antt =====
-- What observe makes of the state: a refused call blocks, an observation settles, and an episode
-- of alerts ends only when the usage falls.
use whiterun_music_bot.Base.{
  ℕ, ◌+◌, ◌^◌, ◌<◌, ◌≤◌, ◌≡◌, refl, some, Bool, true, false, not, ◌&&◌, List, [], ◌∷◌, Option, ◌⊎◌,
  inl, inr, arith, Bool-cases, if◌then◌else◌, inc64,
}
use mathlib.Core.Bool.{true≢false}
use whiterun_music_bot.Storage.Slots.{PhysicalState, PhysicalEvent, load}
use whiterun_music_bot.Storage.Slots.Laws.{Codec, Settled, bumped, load-Settled}
use whiterun_music_bot.Storage.Slots.Saves.{IsStored, save_state-IsStored}
use whiterun_music_bot.Storage.Slots.Crash.{save_state-state}
use whiterun_music_bot.Storage.Physical.Limit.{observe_usage-files}
use whiterun_music_bot.Storage.Physical.{
  PhysicalQuota, PhysicalUsage, GuardedCall, Code, full_disk, io_error, guard_projected,
  refuse_call, observe_usage, save_quota, is_admitted, current_usage, with_base, noted,
  note_exhausted, note_armed, note_events, any_refused, answer, low,
}

-- Observing the same usage again changes nothing, so nothing is saved.
noted-noted :
    (u : PhysicalUsage) (s : PhysicalState)
    → (noted false u (noted false u s).state).changed ≡ false
unfolding noted note_exhausted note_armed note_events
noted-noted u s = ground arith

-- A refusal leaves the quota blocked and the alert that it is full pending.
noted-denied :
    (u : PhysicalUsage) (s : PhysicalState)
    → ((noted true u s).state.exhausted ≡ true)
      × ((noted true u s).state.full.pending ≡ true)
      × ((noted true u s).state.base ≡ s.base)
unfolding noted note_exhausted note_armed note_events
noted-denied u s = ground arith

-- An observation leaves sequence number and limit, and the whole state when nothing is to be saved.
noted-rest :
    (denied : Bool) (u : PhysicalUsage) (s : PhysicalState)
    → ((noted denied u s).state.sequence ≡ s.sequence) × ((noted denied u s).state.limit ≡ s.limit)
unfolding noted note_exhausted note_armed note_events
noted-rest denied u s = ground arith

noted-unchanged :
    (denied : Bool) (u : PhysicalUsage) (s : PhysicalState)
    → (noted denied u s).changed ≡ false
    → (noted denied u s).state ≡ s
unfolding noted note_exhausted note_armed note_events
noted-unchanged denied u s h = ground (arith, h)

-- One where there is a fresh episode to open.
abbrev charges : Bool → ℕ
charges armed = if armed then 1 else 0

noted-episode :
    (denied : Bool) (u : PhysicalUsage) (s : PhysicalState)
    → low u ≡ false
    → (noted denied u s).state.episode + charges (noted denied u s).state.armed
      ≤ s.episode + charges s.armed
unfolding noted note_exhausted note_armed note_events
noted-episode denied u s h = ground arith

charges-le : (b : Bool) → charges b ≤ 1
charges-le b = ground arith

-- Observations in order, each with whether a call was refused.
unfoldable pub watch : List (Bool × PhysicalUsage) → PhysicalState → PhysicalState
watch [] s = s
watch ((denied, u) ∷ os) s = watch os (noted denied u s).state

-- At no observation has the usage fallen below 85 % of the limit.
abbrev pub StaysHigh : List (Bool × PhysicalUsage) → Type 0
StaysHigh [] = Unit {0}
StaysHigh ((denied, u) ∷ os) = (low u ≡ false) × StaysHigh os

watch-episode :
    (os : List (Bool × PhysicalUsage)) (s : PhysicalState)
    → StaysHigh os
    → (watch os s).episode + charges (watch os s).armed ≤ s.episode + charges s.armed
unfolding watch
watch-episode [] s h = omega arith
watch-episode ((denied, u) ∷ os) s h =
    omega (arith, noted-episode denied u s h.0, watch-episode os (noted denied u s).state h.1)

-- While the usage stays at 85 % of the limit or more, whatever is refused meanwhile, at most one
-- new episode of alerts opens.
watch-once :
    (os : List (Bool × PhysicalUsage)) (s : PhysicalState)
    → StaysHigh os
    → (watch os s).episode ≤ s.episode + 1
watch-once os s h = omega (arith, watch-episode os s h, charges-le s.armed)

abbrev pub is_undelivered : PhysicalEvent → Bool
is_undelivered e = e.pending && not e.delivered

-- An observation never replaces an alert that is pending and not delivered.
noted-undelivered :
    (denied : Bool) (u : PhysicalUsage) (s : PhysicalState)
    → (is_undelivered s.warn ≡ true → (noted denied u s).state.warn ≡ s.warn)
      × (is_undelivered s.full ≡ true → (noted denied u s).state.full ≡ s.full)
unfolding noted note_exhausted note_armed note_events
noted-undelivered denied u s = ground arith

module _ (marshal : PhysicalState → Option (List ℕ)) (unmarshal : List ℕ → Option PhysicalState)
    (crc32 : List ℕ → ℕ) where
  -- What a refused call leaves: the files, the base before the call, and the alarm; without an error
  -- of the save, the next load of the control file finds just that.
  pub record Refused (old_base : ℕ) (q : PhysicalQuota) (r : PhysicalQuota × Code) : Type 0 where
    pub files : r.0.files ≡ q.files
    pub base : r.0.saved.state.base ≡ old_base
    pub blocked : r.0.saved.state.exhausted ≡ true
    pub alert : r.0.saved.state.full.pending ≡ true
    pub code :
        ((r.1 ≡ full_disk) × (load unmarshal crc32 r.0.saved ≡ some r.0.saved)) ⊎ (r.1 ≡ io_error)

  -- observe, up to the sequence number.
  observe_usage-state :
      (denied : Bool) (u : PhysicalUsage) (q : PhysicalQuota)
      → (n : ℕ) × ((observe_usage marshal crc32 denied u q).0.saved.state
          ≡ record (noted denied u q.saved.state).state { sequence = n })
  unfolding observe_usage save_quota
  observe_usage-state denied u q = elim (Bool-cases (noted denied u q.saved.state).changed) [
    | inl e ↦ rw e (
      inc64 (noted denied u q.saved.state).state.sequence,
      save_state-state marshal crc32
          (record q.saved { state = (noted denied u q.saved.state).state }),
    )
    | inr e ↦ rw e ((noted denied u q.saved.state).state.sequence, refl)
  ]

  -- After an observation of a settled state, the next load finds what it left, unless its save failed.
  observe_usage-IsStored :
      (denied : Bool) (u : PhysicalUsage) (q : PhysicalQuota)
      → Codec marshal unmarshal crc32 (bumped (noted denied u q.saved.state).state)
      → Settled unmarshal crc32 q.saved
      → q.saved.state.sequence + 1 < 2 ^ 64
      → let r = observe_usage marshal crc32 denied u q in IsStored unmarshal crc32 (r.0.saved, r.1)
  unfolding observe_usage save_quota
  observe_usage-IsStored denied u q codec v small =
      elim (Bool-cases (noted denied u q.saved.state).changed) [
        | inl e ↦
            let (n, l) = noted-rest denied u q.saved.state in
            rw e (
              save_state-IsStored marshal unmarshal crc32 q.saved
                (noted denied u q.saved.state).state codec v small n l)
        | inr e ↦
            rw (e, noted-unchanged denied u q.saved.state e)
              (inr (load-Settled unmarshal crc32 q.saved v))
      ]

  answer-Refused :
      (base : ℕ) (q : PhysicalQuota) (r : PhysicalQuota × Bool)
      → r.0.files ≡ q.files
      → r.0.saved.state.base ≡ base
      → r.0.saved.state.exhausted ≡ true
      → r.0.saved.state.full.pending ≡ true
      → IsStored unmarshal crc32 (r.0.saved, r.1)
      → Refused base q (answer full_disk r)
  answer-Refused base q (t, true) f b x a (inl w) = elim (true≢false w) [ ]
  answer-Refused base q (t, true) f b x a (inr k) = record {
    files = f;
    base = b;
    blocked = x;
    alert = a;
    code = inl (refl, k);
  }
  answer-Refused base q (t, false) f b x a k = record {
    files = f;
    base = b;
    blocked = x;
    alert = a;
    code = inr refl;
  }

  refuse_call-Refused :
      (base : ℕ) (q : PhysicalQuota)
      → let q' = with_base base q in
        Codec marshal unmarshal crc32 (bumped (noted true (current_usage q') q'.saved.state).state)
        → Settled unmarshal crc32 (with_base base q).saved
        → q.saved.state.sequence + 1 < 2 ^ 64
        → Refused base q (refuse_call marshal crc32 base q)
  unfolding refuse_call
  refuse_call-Refused base q0 codec v small =
      let q = with_base base q0 in
      let (n, e) = observe_usage-state true (current_usage q) q in
      let (b, f, k) = noted-denied (current_usage q) q.saved.state in
      answer-Refused base q0 (observe_usage marshal crc32 true (current_usage q) q)
        (observe_usage-files marshal crc32 true (current_usage q) q) (rw e k) (rw e b) (rw e f)
        (observe_usage-IsStored true (current_usage q) q codec v small)

  -- A call whose growth is not admitted, the files' sizes being known, is not made: the files and the
  -- base are as before, the quota is blocked, the alert that it is full is pending, and the answer is
  -- an error. When the control file held the state before the call, below 2 ^ 64 saves and with a codec
  -- that reads what it writes, the answer that the disk is full says that this is also what the next
  -- load of that file finds; the other answer is that of a save that failed.
  pub guard_projected-Refused :
      (base : ℕ) (c : GuardedCall) (q : PhysicalQuota)
      → any_refused q.files ≡ false
      → is_admitted base c.target q ≡ false
      → let q' = with_base base q in
        Codec marshal unmarshal crc32 (bumped (noted true (current_usage q') q'.saved.state).state)
        → Settled unmarshal crc32 (with_base base q).saved
        → q.saved.state.sequence + 1 < 2 ^ 64
        → Refused base q (guard_projected marshal crc32 base c q)
  unfolding guard_projected
  guard_projected-Refused base c q e f codec v small =
      rw (e, f) (refuse_call-Refused base q codec v small)
