-- ===== src/Player/Scheduler.antt =====
-- internal/player/player.go (run up to the call of play) and internal/player/observability.go
-- (schedulerReasonAllowProviderLocked): why the scheduler waits, and what it selects.
pub mod Laws
use whiterun_music_bot.Base.{
  ℕ, Bool, true, false, not, ◌&&◌, ◌||◌, Option, none, some, List, [], ◌∷◌, str_eq, length, get_or,
  ltb, ◌==◌, if◌then◌else◌, is_some, inc64,
}
use whiterun_music_bot.Media.Track.{Track}
use whiterun_music_bot.Media.Errors.{canceled}
use whiterun_music_bot.Media.Admission.{Tag, is_blank, ProviderAdmission}
use whiterun_music_bot.Player.State.{GuildPlayer, QueueEntry, CollectionJob, Search, idle}
use whiterun_music_bot.Player.Jobs.{find_job, release_entry}
use whiterun_music_bot.Player.Durable.{persist_playback, is_clean}
use whiterun_music_bot.Player.Provider.{finish_provider}
use whiterun_music_bot.Player.Voice.{max_voice_attempts}

pub data Reason : Type 0 where
  ended voice_detached voice_suspended provider_blocked halted queue_empty : Reason
  resolution_in_progress next_position_pending ready : Reason

abbrev is_idle : Search → Bool
is_idle idle = true
is_idle _ = false

unfoldable pub is_searching : QueueEntry → Option CollectionJob → Bool
is_searching e none = false
is_searching e (some j) = not (is_idle (get_or j.searches e.position idle))

unfoldable pub head_reason : List CollectionJob → List QueueEntry → Reason
unfolding is_searching find_job
head_reason jobs [] = queue_empty
head_reason jobs (e ∷ es) =
    if e.pending
    then (if is_searching e (find_job e.job_id jobs)
        then resolution_in_progress
        else next_position_pending)
    else ready

-- schedulerReasonAllowProviderLocked.
unfoldable pub scheduler_reason : Bool → GuildPlayer → Reason
unfolding head_reason
scheduler_reason allow p =
    if p.canceled
    then ended
    else if not (is_some p.voice)
    then voice_detached
    else if p.voice_circuit.blocked
    then voice_suspended
    else if p.provider.blocked && not allow
    then provider_blocked
    else if p.halted
    then halted
    else head_reason p.jobs p.queue

abbrev pub is_local : List QueueEntry → Bool
is_local [] = false
is_local (e ∷ es) = str_eq e.track.requested_source "local"

abbrev pub is_pending : List QueueEntry → Bool
is_pending [] = false
is_pending (e ∷ es) = e.pending

-- The head of run's loop: what it does before it looks at the queue.
pub data Gate : Type 0 where
  exits recovers_voice asks_provider proceeds : Gate

unfoldable pub run_gate : GuildPlayer → Gate
run_gate p =
    if p.canceled
    then Gate.exits
    else if p.voice_circuit.blocked
        && (ltb p.voice_circuit.attempts max_voice_attempts
            && (ltb 0 (length p.queue) && is_some p.voice))
    then Gate.recovers_voice
    else if p.provider.blocked
        && (not (is_local p.queue)
            && (ltb 0 (length p.queue)
                && (not (is_pending p.queue) && (is_some p.voice && not p.halted))))
    then Gate.asks_provider
    else Gate.proceeds

-- The start of an attempt with the head entry, which is taken off the queue.
unfoldable pub select : Tag → QueueEntry → List QueueEntry → GuildPlayer → GuildPlayer
unfolding release_entry
select permit e rest p = record (release_entry e p) {
  queue = rest;
  sequence = inc64 p.sequence;
  attempt = some (record { track = e.track; sequence = inc64 p.sequence; cause = none });
  current = some e.track;
  playback_permit = permit;
  pause = some p.recovery_paused;
  recovery_paused = false;
  checkpoint_offset = e.track.resume_offset;
  confirmed_offset = e.track.resume_offset;
}

-- A fresh head is already durable in the queue; anything else is saved at once.
unfoldable pub save_selection : Track → GuildPlayer → GuildPlayer
unfolding persist_playback
save_selection t p =
    if is_some p.persistence.store && (is_clean p.persistence.error && t.resume_offset == 0)
    then p
    else persist_playback none p

-- What a round of run does once past its gate. `selected` is the track to play.
pub data Round : Type 0 where
  waits_for : Reason → Round
  backs_off : ℕ → Round
  selected : Track → Round

-- A permit that is not used is given back.
unfoldable pub return_permit :
    ℕ → Tag → Option ProviderAdmission → GuildPlayer → GuildPlayer × Option ProviderAdmission
unfolding finish_provider
return_permit now permit g p =
    if is_blank permit then (p, g) else finish_provider now (some canceled) permit g p

unfoldable pub take_head : Tag → GuildPlayer → GuildPlayer × Round
unfolding select save_selection
take_head permit p = elim p.queue [
  | [] ↦ (p, waits_for queue_empty)
  | e ∷ rest ↦ (save_selection e.track (select permit e rest p), selected e.track)
]

-- The rest of run's round. `local` is whether the head was local when the round began, `permit` the
-- permit that the provider gave, if it was asked.
unfoldable pub run_round :
    ℕ
    → Bool
    → Tag
    → Option ProviderAdmission
    → GuildPlayer
    → GuildPlayer × Round × Option ProviderAdmission
run_round now local permit g p =
    let (p', g') = return_permit now permit g p in
    elim (scheduler_reason (not (is_blank permit) || local) p) [
      | ready ↦
          if ltb now p.retry_at
          then (p', backs_off p.retry_at, g')
          else let (q, round) = take_head permit p in (q, round, g)
      | other ↦ (p', waits_for other, g')
    ]
