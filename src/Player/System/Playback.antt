-- ===== src/Player/System/Playback.antt =====
-- The scheduler's and the attempts' sections of internal/player keep the bounds.
use whiterun_music_bot.Base.{
  ℕ, ◌+◌, ◌-◌, ◌≤◌, ◌≡◌, Bool, true, Option, none, some, List, [], ◌∷◌, ◌++◌, String, length,
  length-append, length-drop, Option-cases, inl, inr, if◌then◌else◌, ◌||◌, arith, is_some,
}
use whiterun_music_bot.Media.Track.{Track}
use whiterun_music_bot.Media.Errors.{Err}
use whiterun_music_bot.Media.Admission.{Tag, ProviderAdmission}
use whiterun_music_bot.Player.State.{GuildPlayer, Attempt, ready_entry, max_queue_tracks}
use whiterun_music_bot.Player.Durable.{retry_persistence}
use whiterun_music_bot.Player.Voice.{
  suspend_voice, begin_recovery, start_attempt, end_attempt, confirm_frame, sustain, checkpoint,
  frame_time, max_voice_attempts,
}
use whiterun_music_bot.Player.Start.{announce_start, set_metadata, remember, max_history}
use whiterun_music_bot.Player.Scheduler.{run_round, take_head, return_permit}
use whiterun_music_bot.Player.Finish.{
  Ending, attempt_of, finish_attempt, on_voice_failure, on_provider_failure, finish_permit,
  on_network_failure, on_resume_failure, repeat_track, tear_down, announce, retain, gate_status,
  observe_gate, err_category, at_offset, or_selected, ending_category,
}
use whiterun_music_bot.Player.System.{round, ending, begun, tried}
use whiterun_music_bot.Player.System.Bounds.{
  Inv, Frame, Frame-Inv, block_provider-Frame, finish_provider-Frame, return_permit-Frame,
}

length-remember : (t : Track) (history : List Track) → length (remember t history) ≤ max_history
unfolding remember
length-remember t history =
    omega (arith, length-drop (length (history ++ t ∷ []) - max_history) (history ++ t ∷ []))

pub announce_start-Inv :
    (done : Bool) (sequence : ℕ) (p : GuildPlayer) → Inv p → Inv (announce_start done sequence p)
unfolding announce_start
announce_start-Inv done sequence p i = elim (Option-cases p.current) [
  | inl e ↦ ground (arith, e)
  | inr (t, e) ↦ ground (arith, e, length-remember t p.history)
]

pub set_metadata-Inv :
    (done : Bool) (sequence : ℕ) (t : Track) (p : GuildPlayer)
    → Inv p
    → Inv (set_metadata done sequence t p)
unfolding set_metadata
set_metadata-Inv done sequence t p i = ground arith

pub suspend_voice-Inv : (p : GuildPlayer) → Inv p → Inv (suspend_voice p)
unfolding suspend_voice
suspend_voice-Inv p i = ground arith

pub begin_recovery-Inv : (p : GuildPlayer) → Inv p → Inv (begun (begin_recovery p) p)
unfolding begin_recovery
begin_recovery-Inv p i = ground arith

pub start_attempt-Inv :
    (done : Bool) (epoch jitter : ℕ) (p : GuildPlayer) → Inv p → Inv (tried done epoch jitter p)
unfolding start_attempt
start_attempt-Inv done epoch jitter p i = ground arith

pub end_attempt-Inv :
    (done : Bool) (epoch : ℕ) (replacement : Option ℕ) (p : GuildPlayer)
    → Inv p
    → Inv (end_attempt done epoch replacement p).0
unfolding end_attempt
end_attempt-Inv done epoch none p i = ground arith
end_attempt-Inv done epoch (some v) p i = ground arith

pub retry_persistence-Inv : (p : GuildPlayer) → Inv p → Inv (retry_persistence p).0
unfolding retry_persistence
retry_persistence-Inv p i = ground arith

sustain-Inv :
    (now : ℕ) (g : Option ProviderAdmission) (p : GuildPlayer) → Inv p → Inv (sustain now g p).0
unfolding sustain
sustain-Inv now g p i = ground (arith, finish_provider-Frame now none p.playback_permit g p)

checkpoint-Inv : (p : GuildPlayer) → Inv p → Inv (checkpoint p)
unfolding checkpoint
checkpoint-Inv p i = ground arith

pub confirm_frame-Inv :
    (now : ℕ) (done : Bool) (sequence : ℕ) (g : Option ProviderAdmission) (p : GuildPlayer)
    → Inv p
    → Inv (confirm_frame now done sequence g p).0
unfolding confirm_frame
confirm_frame-Inv now done sequence g p i = ground (
  arith,
  sustain-Inv now g (record p { confirmed_offset = p.confirmed_offset + frame_time })
      (ground arith),
  checkpoint-Inv (record p { confirmed_offset = p.confirmed_offset + frame_time }),
  checkpoint-Inv
      (sustain now g (record p { confirmed_offset = p.confirmed_offset + frame_time })).0,
)

take_head-Inv :
    (permit : Tag) (p : GuildPlayer) → p.attempt ≡ none → Inv p → Inv (take_head permit p).0
unfolding take_head
take_head-Inv permit p a i = ground arith

-- A round selects only between attempts.
pub round-Inv :
    (now : ℕ) (local : Bool) (permit : Tag) (g : Option ProviderAdmission) (p : GuildPlayer)
    → Inv p
    → Inv (round now local permit g p.attempt p)
unfolding run_round
round-Inv now local permit g p i = elim (Option-cases p.attempt) [
  | inl e ↦ ground (
    arith,
    e,
    take_head-Inv permit p e i,
    Frame-Inv p (return_permit now permit g p).0 (return_permit-Frame now permit g p) i,
  )
  | inr (a, e) ↦ ground (arith, e)
]

-- What holds between the stages of an attempt's end: until the failure is dealt with there is room
-- for the current track, which the teardown drops.
record Staged (s : GuildPlayer × Bool) : Type 0 where
  fits : length s.0.queue + (if s.1 then 0 else 1) ≤ max_queue_tracks + 1
  remembered : length s.0.history ≤ max_history
  voice_budget : s.0.voice_circuit.attempts ≤ max_voice_attempts

on_voice_failure-Staged :
    (x : Ending) (p : GuildPlayer) (b : Bool) → Inv p → Staged (on_voice_failure x (p, b))
unfolding on_voice_failure
on_voice_failure-Staged x p b i = elim (Option-cases p.current) [
  | inl e ↦ ground (arith, e)
  | inr (t, e) ↦ ground (arith, e)
]

on_provider_failure-Staged :
    (now : ℕ) (x : Ending) (g : Option ProviderAdmission) (p : GuildPlayer) (b : Bool)
    → Staged (p, b)
    → Staged (on_provider_failure now x g (p, b)).0
unfolding on_provider_failure
on_provider_failure-Staged now x g p b i = elim (Option-cases p.current) [
  | inl e ↦ ground (arith, e, i)
  | inr (t, e) ↦ ground (
    arith,
    e,
    i,
    block_provider-Frame now (gate_status (observe_gate now x.err g)) (err_category x.err)
        (retain t p),
  )
]

finish_permit-Frame :
    (now : ℕ) (x : Ending) (g : Option ProviderAdmission) (p : GuildPlayer)
    → Frame p (finish_permit now x g p).0
unfolding finish_permit
finish_permit-Frame now x g p = ground (arith, finish_provider-Frame now x.err x.permit g p)

Frame-Staged : (p q : GuildPlayer) (b : Bool) → Frame p q → Staged (p, b) → Staged (q, b)
Frame-Staged p q b f i = ground (arith, f, i)

on_network_failure-Staged :
    (now jitter : ℕ) (x : Ending) (c : String) (p : GuildPlayer) (b : Bool)
    → Staged (p, b)
    → Staged (on_network_failure now jitter x c (p, b))
unfolding on_network_failure
on_network_failure-Staged now jitter x c p b i = elim (Option-cases p.current) [
  | inl e ↦ ground (arith, e, i)
  | inr (t, e) ↦ ground (arith, e, i)
]

on_resume_failure-Staged :
    (x : Ending) (p : GuildPlayer) (b : Bool) → Staged (p, b) → Staged (on_resume_failure x (p, b))
unfolding on_resume_failure
on_resume_failure-Staged x p b i = elim (Option-cases p.current) [
  | inl e ↦ ground (arith, e, i)
  | inr (t, e) ↦ ground (arith, e, i)
]

repeat_track-Staged :
    (x : Ending) (p : GuildPlayer) (b : Bool) → Staged (p, b) → Staged (repeat_track x (p, b), true)
unfolding repeat_track
repeat_track-Staged x p b i = ground (
  arith,
  i,
  length-append p.queue (ready_entry (at_offset 0 (or_selected x.selected p.current)) ∷ []),
)

tear_down-Inv : (x : Ending) (b : Bool) (p : GuildPlayer) → Staged (p, true) → Inv (tear_down x b p)
unfolding tear_down
tear_down-Inv x b p i = ground (arith, i)

announce-Inv : (failed : Bool) (p : GuildPlayer) → Inv p → Inv (announce failed p)
unfolding announce
announce-Inv failed p i = ground arith

-- The end of an attempt, whatever its error was.
pub finish_attempt-Inv :
    (now jitter : ℕ) (x : Ending) (g : Option ProviderAdmission) (p : GuildPlayer)
    → Inv p
    → Inv (finish_attempt now jitter x g p).0
unfolding finish_attempt
finish_attempt-Inv now jitter x g p i =
    let done = is_some x.cause || p.canceled in
    let q = on_voice_failure x (p, done) in
    let s = on_provider_failure now x g q in
    let r = finish_permit now x s.1 s.0.0 in
    let t = on_network_failure now jitter x (ending_category x done) (r.0, s.0.1) in
    let u = on_resume_failure x t in
    announce-Inv _ _ (
      tear_down-Inv x u.1 _ (
        repeat_track-Staged x u.0 u.1 (
          on_resume_failure-Staged x t.0 t.1 (
            on_network_failure-Staged now jitter x (ending_category x done) r.0 s.0.1 (
              Frame-Staged s.0.0 r.0 s.0.1 (finish_permit-Frame now x s.1 s.0.0) (
                on_provider_failure-Staged now x g q.0 q.1
                  (on_voice_failure-Staged x p done i)))))))

pub ending-Inv :
    (now jitter : ℕ) (err : Option Err) (permit : Tag) (g : Option ProviderAdmission)
    (o : Option Attempt) (p : GuildPlayer)
    → Inv p
    → Inv (ending now jitter err permit g o p)
ending-Inv now jitter err permit g none p i = i
ending-Inv now jitter err permit g (some a) p i =
    finish_attempt-Inv now jitter (attempt_of err permit p a) g p i
