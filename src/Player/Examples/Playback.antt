-- ===== src/Player/Examples/Playback.antt =====
-- Attempts that end, rounds that select, and a voice that recovers.
use whiterun_music_bot.Base.{
  ◌≡◌, refl, inl, true, false, none, some, List, ◌∷◌, arith, if◌then◌else◌,
}
use whiterun_music_bot.Media.Errors.{is_voice_failure, Err, message, stream}
use whiterun_music_bot.Media.Admission.{blank}
use whiterun_music_bot.Player.State.{GuildPlayer, QueueEntry, ready_entry}
use whiterun_music_bot.Player.Durable.{advance_interrupted}
use whiterun_music_bot.Player.Queue.{set_autoplay}
use whiterun_music_bot.Player.Coordinator.{World}
use whiterun_music_bot.Player.Voice.Retry.{retry_voice, retry_voice_lem, IsRetried}
use whiterun_music_bot.Player.Finish.{finish_attempt, at_offset}
use whiterun_music_bot.Player.Recovery.{voice_loss_keeps_position}
use whiterun_music_bot.Player.Recovery.Resume.{resumed_failure_keeps_position, Retained}
use whiterun_music_bot.Player.Scheduler.{run_round, take_head, scheduler_reason}
use whiterun_music_bot.Player.Scheduler.Laws.{selected_only, IsReady}
use whiterun_music_bot.Player.Examples.{ballad, resumed_hymn, ended_with, playing, waiting}

voice_loss_keeps_position_example :
    let q = (finish_attempt 0 0 (ended_with (some Err.voice_unavailable)) none playing).0 in
    let kept = at_offset playing.confirmed_offset resumed_hymn in
    (q.queue
      ≡ (if advance_interrupted kept then playing.queue else ready_entry kept ∷ playing.queue))
    × (q.current ≡ none)
    × (q.attempt ≡ none)
    × (q.voice_circuit.blocked ≡ true)
unfolding playing is_voice_failure
voice_loss_keeps_position_example =
    voice_loss_keeps_position 0 0 (ended_with (some Err.voice_unavailable)) none resumed_hymn
      playing (inl refl) refl refl

resumed_failure_keeps_position_example :
    Retained resumed_hymn playing
      (finish_attempt 0 0
        (ended_with (some (stream "ffmpeg_exit" (message "exit status 1"))))
        none
        playing).0
unfolding playing
resumed_failure_keeps_position_example =
    resumed_failure_keeps_position 0 0
      (ended_with (some (stream "ffmpeg_exit" (message "exit status 1")))) none resumed_hymn playing
      refl refl refl refl (omega arith)

selected_only_example :
    (e : QueueEntry) × (rest : List QueueEntry) × IsReady 0 false waiting e rest
    × (e.track ≡ ballad)
unfolding waiting run_round take_head scheduler_reason
selected_only_example = selected_only 0 false blank none ballad waiting refl

-- The voice is suspended and one track waits.
abbrev suspended : GuildPlayer
unfolding waiting
suspended = record waiting {
  voice_circuit = record waiting.voice_circuit { blocked = true; incident = true; attempts = 2 };
}

-- Somebody turns autoplay on before each look.
abbrev busy : World
busy k = record { others = set_autoplay true; ended = false }

retry_voice_lem_example :
    ((retry_voice 3 busy 0 0 (λ i. 0) (λ i. none) suspended).1 ≡ true)
    × IsRetried busy 0 (retry_voice 3 busy 0 0 (λ i. 0) (λ i. none) suspended).0
unfolding suspended waiting set_autoplay
retry_voice_lem_example =
    retry_voice_lem 3 busy 0 0 (λ i. 0) (λ i. none) suspended (λ j q d e. omega arith) refl
      (omega arith) (omega arith)
