-- ===== src/Player/Durability/Repair.antt =====
-- Failed writes and their repair (persistenceResultLocked and retryPersistence of
-- internal/player/durable.go), and the checkpoints of a track that plays (internal/player/resume.go).
use whiterun_music_bot.Base.{
  ℕ, zero, suc, ◌+◌, ◌-◌, ◌≤◌, ◌<◌, ◌≡◌, ◌⊎◌, Bool, true, false, Option, none, some, List, arith,
  if◌then◌else◌,
}
use whiterun_music_bot.Media.Admission.{ProviderAdmission}
use whiterun_music_bot.Player.State.{GuildPlayer, Disk, DurableState, unsaved}
use whiterun_music_bot.Player.Durable.{durable, fails, rest_faults}
use whiterun_music_bot.Player.Provider.{finish_provider}
use whiterun_music_bot.Player.Voice.{
  confirm_frame, checkpoint, sustain, checkpoint_time, frame_time, save_checkpoint,
}
use whiterun_music_bot.Player.Durability.{IsSaved, IsWritable, saved_in}

-- A disk that refuses the next write.
pub record IsFailing (p : GuildPlayer) : Type 0 where
  pub disk : Disk
  pub attached : p.persistence.store ≡ some disk
  pub refuses : fails disk.faults ≡ true
  pub running : p.canceled ≡ false

-- Whether one of the next writes succeeds, that many at most.
unfoldable pub gives_way : ℕ → List Bool → Bool
gives_way zero fs = false
gives_way (suc n) fs = if fails fs then gives_way n (rest_faults fs) else true

-- What the worker comes to when its next writes are those of the script `fs`.
abbrev pub WorkerResult : ℕ → List Bool → Option DurableState → GuildPlayer → Type 0
WorkerResult n fs before q =
    (q.persistence.retrying ≡ false)
    × (((gives_way n fs ≡ true) × IsSaved q)
        ⊎ ((gives_way n fs ≡ false)
            × (saved_in q.persistence.store ≡ before)
            × (q.persistence.error ≡ unsaved)))

-- How far the checkpoint may be behind the audio.
abbrev pub IsCheckpointed : GuildPlayer → Type 0
IsCheckpointed p =
    (p.checkpoint_offset ≤ p.confirmed_offset)
    × (p.confirmed_offset - p.checkpoint_offset < checkpoint_time)

sustain-Frame :
    (now : ℕ) (g : Option ProviderAdmission) (p : GuildPlayer)
    → ((sustain now g p).0.confirmed_offset ≡ p.confirmed_offset)
      × ((sustain now g p).0.checkpoint_offset ≡ p.checkpoint_offset)
      × ((sustain now g p).0.persistence ≡ p.persistence)
      × ((sustain now g p).0.canceled ≡ p.canceled)
unfolding sustain finish_provider
sustain-Frame now none p = ground arith
sustain-Frame now (some g) p = ground arith

checkpoint_lem :
    (p : GuildPlayer)
    → p.checkpoint_offset ≤ p.confirmed_offset
    → IsWritable p
    → IsCheckpointed (checkpoint p)
      × ((checkpoint p).confirmed_offset ≡ p.confirmed_offset)
      × ((((checkpoint p).checkpoint_offset ≡ p.checkpoint_offset)
            × ((checkpoint p).persistence ≡ p.persistence))
          ⊎ (((checkpoint p).checkpoint_offset ≡ p.confirmed_offset)
              × (saved_in (checkpoint p).persistence.store ≡ some (durable (checkpoint p)))))
unfolding checkpoint save_checkpoint durable
checkpoint_lem p l w = ground (arith, l, w.attached, w.works, w.running)

sustained-IsWritable :
    (now : ℕ) (g : Option ProviderAdmission) (p : GuildPlayer)
    → IsWritable p
    → IsWritable (sustain now g p).0
sustained-IsWritable now g p w =
    let f = sustain-Frame now g p in
    record {
      disk = w.disk;
      attached = ground (arith, f, w.attached);
      works = w.works;
      running = ground (arith, f, w.running);
    }

-- While the disk takes writes, a confirmed frame never takes progress back, and leaves less than five
-- seconds of audio above the checkpoint when that was so before; where it moves the checkpoint, the
-- database then holds the player's state at the very offset that is confirmed.
pub confirm_frame_lem :
    (now : ℕ) (done : Bool) (sequence : ℕ) (g : Option ProviderAdmission) (p : GuildPlayer)
    → IsWritable p
    → IsCheckpointed p
    → let q = (confirm_frame now done sequence g p).0 in
      IsCheckpointed q
      × (p.confirmed_offset ≤ q.confirmed_offset)
      × (((q.checkpoint_offset ≡ p.checkpoint_offset) × (q.persistence ≡ p.persistence))
          ⊎ ((q.checkpoint_offset ≡ q.confirmed_offset)
              × (saved_in q.persistence.store ≡ some (durable q))))
unfolding confirm_frame
confirm_frame_lem now done sequence g p w c =
    let sent : GuildPlayer = record p { confirmed_offset = p.confirmed_offset + frame_time } in
    let v : IsWritable sent = record {
      disk = w.disk;
      attached = w.attached;
      works = w.works;
      running = w.running;
    } in
    let f = sustain-Frame now g sent in
    let steady =
      checkpoint_lem (sustain now g sent).0 (omega (arith, f, c))
        (sustained-IsWritable now g sent v) in
    let plain = checkpoint_lem sent (omega (arith, c)) v in ground (arith, c, f, steady, plain)
