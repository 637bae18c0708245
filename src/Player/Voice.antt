-- ===== src/Player/Voice.antt =====
-- internal/player/voice_recovery.go, and the audio progress of internal/player/resume.go.
pub mod Retry
use whiterun_music_bot.Base.{
  ℕ, ◌+◌, ◌-◌, ◌*◌, Bool, true, false, not, ◌||◌, Option, none, some, ltb, leb, ◌==◌, if◌then◌else◌,
  inc64, is_some, ◌^◌, length,
}
use whiterun_music_bot.Media.Track.{Track, second, millisecond}
use whiterun_music_bot.Media.Admission.{blank, is_blank, ProviderAdmission}
use whiterun_music_bot.Player.State.{
  GuildPlayer, VoiceCircuit, Attempt, CancelCause, on_request, voice_lost, DurableState,
  Persistence, PersistenceError, clean, delayed,
}
use whiterun_music_bot.Player.Jobs.{signal, wake_collections}
use whiterun_music_bot.Player.Durable.{durable, save_guild, fails}
use whiterun_music_bot.Player.Provider.{finish_provider}

-- trackCause and trackCancel: the first cause of a context stands.
abbrev pub cancel_attempt : CancelCause → Option Attempt → Option Attempt
cancel_attempt why none = none
cancel_attempt why (some a) =
    if is_some a.cause then some a else some (record a { cause = some why })

-- cancelTrackLocked. The attempt stays with `run` until its teardown.
unfoldable pub cancel_track : GuildPlayer → GuildPlayer
cancel_track p = record p {
  attempt = cancel_attempt on_request p.attempt;
  current = none;
  pause = none;
}

abbrev pub max_voice_attempts : ℕ
max_voice_attempts = 5

-- suspendVoiceLocked. A new incident gets a fresh budget; one that is still open keeps its own.
unfoldable pub open_circuit : ℕ → VoiceCircuit → VoiceCircuit
open_circuit sequence c =
    if c.blocked then c else if c.incident then record c { blocked = true } else record c {
      blocked = true;
      incident = true;
      incident_sequence = sequence;
      attempts = 0;
      notice = false;
    }

abbrev pub suspend_voice_locked : GuildPlayer → GuildPlayer
suspend_voice_locked p = record p { voice_circuit = open_circuit p.sequence p.voice_circuit }

-- SuspendVoice.
unfoldable pub suspend_voice : GuildPlayer → GuildPlayer
unfolding open_circuit signal
suspend_voice p =
    let suspended = suspend_voice_locked p in
    if not (is_some p.voice) || p.canceled
    then p
    else signal (
        if is_some p.current
        then record suspended { attempt = cancel_attempt voice_lost p.attempt }
        else suspended)

-- cancelVoiceRecoveryLocked.
unfoldable pub cancel_voice_recovery : GuildPlayer → GuildPlayer
cancel_voice_recovery p = record p {
  voice_circuit = record p.voice_circuit {
    epoch = inc64 p.voice_circuit.epoch;
    recovering = false;
  };
}

-- recoverVoice up to its loop: none when there is nothing to recover; else the epoch that the
-- recovery belongs to.
unfoldable pub begin_recovery : GuildPlayer → Option (GuildPlayer × ℕ)
begin_recovery p =
    let c = p.voice_circuit in
    if not c.blocked
      || (leb max_voice_attempts c.attempts || (length p.queue == 0 || not (is_some p.voice)))
    then none
    else some (record p { voice_circuit = record c { recovering = true; notice = true } }, c.epoch)

-- The head of a round: none when the recovery ends; else the delay before its attempt, to which
-- `jitter` of at most a quarter is added.
unfoldable pub start_attempt : Bool → ℕ → ℕ → VoiceCircuit → Option (VoiceCircuit × ℕ)
start_attempt done epoch jitter c =
    if done || (not (epoch == c.epoch) || leb max_voice_attempts c.attempts)
    then none
    else some (record c { attempts = c.attempts + 1 }, second * 2 ^ c.attempts + jitter)

-- The end of a round, for what Recover returned: whether the loop goes on.
unfoldable pub end_attempt : Bool → ℕ → Option ℕ → GuildPlayer → GuildPlayer × Bool
unfolding signal
end_attempt done epoch none p =
    if done || not (epoch == p.voice_circuit.epoch)
    then (p, false)
    else (p, ltb p.voice_circuit.attempts max_voice_attempts)
end_attempt done epoch (some replacement) p =
    if done || not (epoch == p.voice_circuit.epoch) then (p, false) else (
      signal (record p {
        voice = some replacement;
        voice_circuit = record p.voice_circuit { blocked = false; recovering = false };
      }),
      false,
    )

-- completeRecoveryLocked.
unfoldable pub complete_recovery : GuildPlayer → GuildPlayer
complete_recovery p =
    let c = p.voice_circuit in
    record p {
      network_attempts = 0;
      voice_circuit =
          if c.incident then record c { incident = false; attempts = 0; notice = false } else c;
    }

abbrev is_delayed : PersistenceError → Bool
is_delayed delayed = true
is_delayed _ = false

-- persistAudioCheckpointLocked.
unfoldable pub save_checkpoint : Bool → DurableState → Persistence → Persistence
unfolding save_guild
save_checkpoint canceled state s = elim s.store [
  | none ↦ s
  | some d ↦
      if canceled
      then s
      else if fails d.faults
      then record s {
        store = some (save_guild state none d);
        checkpoint_delayed = true;
        error = elim s.error [ clean ↦ delayed | e ↦ e ];
      }
      else record s {
        store = some (save_guild state none d);
        checkpoint_delayed = false;
        error = if is_delayed s.error then clean else s.error;
      }
]

abbrev pub frame_time : ℕ
frame_time = 20 * millisecond

abbrev pub checkpoint_time : ℕ
checkpoint_time = 5 * second

abbrev pub start_offset : Option Track → ℕ
start_offset none = 0
start_offset (some t) = t.resume_offset

-- Sustained audio: the provider's trial succeeded, and the transport's budgets are renewed.
unfoldable pub sustain :
    ℕ → Option ProviderAdmission → GuildPlayer → GuildPlayer × Option ProviderAdmission
unfolding complete_recovery
sustain now g p =
    let (finished, g') = finish_provider now none p.playback_permit g p in
    if is_blank p.playback_permit
    then (complete_recovery p, g)
    else (complete_recovery (record finished { playback_permit = blank }), g')

unfoldable pub checkpoint : GuildPlayer → GuildPlayer
unfolding save_checkpoint durable wake_collections
checkpoint p =
    if leb checkpoint_time (p.confirmed_offset - p.checkpoint_offset)
    then record (wake_collections p) {
      checkpoint_offset = p.confirmed_offset;
      persistence = save_checkpoint p.canceled (durable p) p.persistence;
    }
    else p

-- confirmFrame, for an accepted frame of attempt `sequence` whose context is `done` or not.
unfoldable pub confirm_frame :
    ℕ → Bool → ℕ → Option ProviderAdmission → GuildPlayer → GuildPlayer × Option ProviderAdmission
confirm_frame now done sequence g p =
    let sent = record p { confirmed_offset = p.confirmed_offset + frame_time } in
    let (steady, g') = sustain now g sent in
    if done || (not (is_some p.current) || not (p.sequence == sequence))
    then (p, g)
    else if leb checkpoint_time (sent.confirmed_offset - start_offset p.current)
    then (checkpoint steady, g')
    else (checkpoint sent, g)
