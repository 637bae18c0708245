-- ===== src/Player/Examples/Panic.antt =====
-- A history of events after which Previous panics (internal/player/previous.go).
use whiterun_music_bot.Base.{◌≡◌, refl, false, none, some, List, [], ◌∷◌}
use whiterun_music_bot.Media.Errors.{is_voice_failure, Err}
use whiterun_music_bot.Media.Admission.{blank}
use whiterun_music_bot.Player.State.{new, CommandError}
use whiterun_music_bot.Player.Voice.{
  confirm_frame, checkpoint, sustain, suspend_voice, begin_recovery, start_attempt, end_attempt,
  complete_recovery,
}
use whiterun_music_bot.Player.Start.{announce_start, start_track, remember, save_start}
use whiterun_music_bot.Player.Queue.{previous_unsaved, previous_to, previous, jump}
use whiterun_music_bot.Player.Commands.{attach, enqueue_many}
use whiterun_music_bot.Player.Finish.{
  on_voice_failure, on_provider_failure, on_network_failure, on_resume_failure, repeat_track,
  tear_down, announce, retain, finish_permit, finish_attempt,
}
use whiterun_music_bot.Player.Scheduler.{
  select, save_selection, return_permit, run_round, take_head, scheduler_reason,
}
use whiterun_music_bot.Player.System.{Event, run, step}
use whiterun_music_bot.Player.Examples.{hymn}

-- Voice is lost during the only recording of the history and comes back; Previous before its audio
-- does takes that recording out of the history; the copy in front is jumped over, and the resumed
-- recording starts.
abbrev to_the_panic : List Event
to_the_panic =
    Event.attaches 1
    ∷ Event.enqueues (hymn ∷ []) 1
    ∷ Event.rounds 0 false blank none
    ∷ Event.starts false 1
    ∷ Event.sends 0 false 1 none
    ∷ Event.suspends
    ∷ Event.ends 0 0 (some Err.canceled) blank none
    ∷ Event.recovers
    ∷ Event.tries_voice false 0 0
    ∷ Event.tried_voice false 0 (some 2)
    ∷ Event.rounds 0 false blank none
    ∷ Event.previouses
    ∷ Event.ends 0 0 (some Err.canceled) blank none
    ∷ Event.jumps 2
    ∷ Event.rounds 0 false blank none
    ∷ Event.starts false 3
    ∷ []

test_panic_reached : (previous (run to_the_panic new)).1 ≡ some CommandError.panicked
unfolding run step attach enqueue_many run_round scheduler_reason take_head select save_selection
    announce_start start_track remember save_start confirm_frame checkpoint sustain suspend_voice
    finish_attempt on_voice_failure on_provider_failure on_network_failure on_resume_failure
    repeat_track tear_down announce retain finish_permit begin_recovery start_attempt end_attempt
    previous previous_unsaved previous_to jump new return_permit complete_recovery is_voice_failure
test_panic_reached = refl
