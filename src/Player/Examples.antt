-- ===== src/Player/Examples.antt =====
-- Concrete players that the theorems on internal/player apply to.
mod Panic
mod Playback
mod Collections
mod Coordinators
mod Streams
mod Disks
use whiterun_music_bot.Base.{
  ℕ, ◌+◌, ◌*◌, ◌-◌, ◌≤◌, ◌≡◌, ◌↔◌, refl, true, false, Option, none, some, [], ◌∷◌, length,
  get_elem?, is_some, arith, Perm, String,
}
use whiterun_music_bot.Media.Track.{Track, second}
use whiterun_music_bot.Media.Errors.{Err}
use whiterun_music_bot.Media.Admission.{blank}
use whiterun_music_bot.Player.State.{
  GuildPlayer, Disk, ready_entry, new, CommandError, max_queue_tracks,
}
use whiterun_music_bot.Player.Queue.{previous, is_overrun, move, remove_at}
use whiterun_music_bot.Player.Queue.Laws.{move_lem, insert_at}
use whiterun_music_bot.Player.Commands.{stop, leave, clear}
use whiterun_music_bot.Player.Navigation.{previous_panics}
use whiterun_music_bot.Player.Finish.{Ending}
use whiterun_music_bot.Player.Scheduler.{selected}
use whiterun_music_bot.Player.Tickets.{ticket_expires, IsExpired}
use whiterun_music_bot.Player.System.{Event, run, guild_player}
use whiterun_music_bot.Player.System.Bounds.{Inv}
use whiterun_music_bot.Player.System.Capacity.{player_run-Inv}

abbrev pub track_named : String → ℕ → Track
track_named title length = record {
  resume_offset = 0;
  spotify_id = "";
  requested_source = "youtube";
  live = false;
  position = 0;
  total = 0;
  video_id = "";
  title = title;
  url = title;
  duration = length * second;
}

abbrev pub ballad : Track
ballad = track_named "ballad" 200

abbrev pub hymn : Track
hymn = track_named "hymn" 100

abbrev pub resumed_hymn : Track
resumed_hymn = record hymn { resume_offset = 20 * second }

-- A voice is attached and two tracks wait.
unfoldable pub waiting : GuildPlayer
unfolding new
waiting = record new {
  voice = some 1;
  generation = 1;
  queue = ready_entry ballad ∷ ready_entry hymn ∷ [];
}

-- The resumed hymn plays, the ballad waits, and the history is empty.
unfoldable pub playing : GuildPlayer
unfolding new
playing = record new {
  voice = some 1;
  generation = 1;
  queue = ready_entry ballad ∷ [];
  current = some resumed_hymn;
  attempt = some (record { track = resumed_hymn; sequence = 1; cause = none });
  sequence = 1;
  started_sequence = 1;
  pause = some false;
  confirmed_offset = 21 * second;
}

abbrev pub ended_with : Option Err → Ending
ended_with err = record {
  err = err;
  selected = resumed_hymn;
  cause = none;
  played = true;
  permit = blank;
}

-- The rows of a guild that had heard a ballad.
abbrev pub saved_rows : Disk
saved_rows = record {
  saved = record {
    loop = "queue";
    autoplay = false;
    current = some ballad;
    current_started = false;
    queue = hymn ∷ [];
    history = ballad ∷ [];
  };
  plays = [];
  faults = [];
}

player_run-Inv_example : Inv (
    run
      (Event.attaches 1 ∷ Event.enqueues (ballad ∷ hymn ∷ []) 1 ∷ Event.skips 1 ∷ [])
      (guild_player 480 120 (some saved_rows)))
player_run-Inv_example =
    player_run-Inv 480 120 (some saved_rows)
      (Event.attaches 1 ∷ Event.enqueues (ballad ∷ hymn ∷ []) 1 ∷ Event.skips 1 ∷ []) (omega arith)

previous_panics_example : ((previous playing).1 ≡ some CommandError.panicked) ↔ (
    (playing.canceled ≡ false)
    × (is_some playing.voice ≡ true)
    × (is_overrun playing ≡ true)
    × (length playing.queue + 2 ≤ max_queue_tracks))
unfolding playing
previous_panics_example = previous_panics playing

abbrev two : ℕ
two = 2

move_lem_example :
    ((move 2 1 waiting).1 ≡ none)
    × ((move 2 1 waiting).0.queue ≡ insert_at 0 (ready_entry hymn) (remove_at 1 waiting.queue))
    × (get_elem? (move 2 1 waiting).0.queue 0 ≡ some (ready_entry hymn))
    × Perm (move 2 1 waiting).0.queue waiting.queue
unfolding waiting
move_lem_example =
    move_lem 2 1 (ready_entry hymn) waiting (omega arith) (omega arith) (omega arith) refl

ticket_expires_example :
    IsExpired 1 (stop playing) × IsExpired 1 (leave playing) × IsExpired 1 (clear playing).0
unfolding playing
ticket_expires_example = ticket_expires playing
