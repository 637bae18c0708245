-- ===== src/Player/Examples/Collections.antt =====
-- A collection with one position reserved.
use whiterun_music_bot.Base.{◌+◌, ◌*◌, ◌≤◌, ◌<◌, ◌≡◌, ◌↔◌, refl, true, false, none, [], ◌∷◌, arith}
use whiterun_music_bot.Media.Track.{second}
use whiterun_music_bot.Player.State.{GuildPlayer, ready_entry, is_paused}
use whiterun_music_bot.Player.Collection.{has_slot, Resolution, reserved, commit, new_job}
use whiterun_music_bot.Player.Collection.Laws.{commit_queue, others, slots_at}
use whiterun_music_bot.Player.Collection.Progress.{progress-Accounted, Accounted, JobEvent, job_run}
use whiterun_music_bot.Player.Horizon.{resolution_horizon, remaining, current_barrier}
use whiterun_music_bot.Player.Horizon.Laws.{resolution_horizon_lem, has_barrier, total_duration}
use whiterun_music_bot.Player.Examples.{ballad, hymn, waiting}

-- A collection of two has reserved its positions; the first one has been removed by hand.
abbrev reserving : GuildPlayer
unfolding waiting
reserving = record waiting {
  queue = ready_entry ballad ∷ reserved 1 1 hymn ∷ [];
  jobs = new_job 1 0 (ballad ∷ hymn ∷ []) ∷ [];
  prefetch_horizon = 300 * second;
}

abbrev late : Resolution
late = record { index = 0; track = ballad; err = none; skipped = false; blocked = false }

commit_queue_example :
    (others 1 (commit 1 false (late ∷ []) reserving).0.queue ≡ others 1 reserving.queue)
    × (slots_at 1 0 (commit 1 false (late ∷ []) reserving).0.queue ≤ slots_at 1 0 reserving.queue)
unfolding reserving waiting
commit_queue_example = commit_queue 1 0 false (late ∷ []) reserving

progress-Accounted_example : Accounted (
    job_run
      (JobEvent.discards 0 ∷ JobEvent.records late ∷ JobEvent.records late ∷ [])
      (new_job 1 0 (ballad ∷ hymn ∷ [])))
progress-Accounted_example =
    progress-Accounted 1 0 (ballad ∷ hymn ∷ [])
      (JobEvent.discards 0 ∷ JobEvent.records late ∷ JobEvent.records late ∷ [])
      (tt, (omega arith, (omega arith, tt)))

resolution_horizon_lem_example : ((resolution_horizon 1 1 reserving).1 ≡ true) ↔ (
    (is_paused reserving.pause ≡ false)
    × (current_barrier reserving.current ≡ false)
    × (has_barrier (ready_entry ballad ∷ []) ≡ false)
    × (remaining reserving.confirmed_offset reserving.current
          + total_duration (ready_entry ballad ∷ [])
        < reserving.prefetch_horizon))
unfolding reserving waiting has_slot
resolution_horizon_lem_example =
    resolution_horizon_lem 1 1 (ready_entry ballad ∷ []) [] (reserved 1 1 hymn) reserving
      (omega arith) refl refl refl
