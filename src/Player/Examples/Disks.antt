-- ===== src/Player/Examples/Disks.antt =====
-- Players with a database, and what the theorems on it say of them.
use whiterun_music_bot.Base.{
  ℕ, ◌*◌, ◌≤◌, ◌≡◌, ◌⊎◌, refl, true, false, none, some, List, [], ◌∷◌, map, arith,
}
use whiterun_music_bot.Media.Track.{second}
use whiterun_music_bot.Media.Admission.{blank}
use whiterun_music_bot.Player.State.{GuildPlayer, ready_entry, clean}
use whiterun_music_bot.Player.Durable.{durable, configure_store, with_offset, prepend_current}
use whiterun_music_bot.Player.Voice.{confirm_frame}
use whiterun_music_bot.Player.System.{Event, run, step, guild_player}
use whiterun_music_bot.Player.Durability.{command_durable, Kept}
use whiterun_music_bot.Player.Durability.{IsWritable, saved_in}
use whiterun_music_bot.Player.Durability.Repair.{confirm_frame_lem, IsCheckpointed}
use whiterun_music_bot.Player.Durability.Restore.{restart_lem}
use whiterun_music_bot.Player.Voice.{confirm_frame}
use whiterun_music_bot.Player.Examples.{hymn, playing, saved_rows}

-- A player whose disk takes every write.
abbrev stored : GuildPlayer
unfolding playing
stored = record playing {
  persistence = record {
    store = some (record { saved = durable playing; plays = []; faults = [] });
    error = clean;
    retrying = false;
    checkpoint_delayed = false;
  };
}

command_durable_example : Kept stored (step (Event.removes 1) stored)
unfolding playing stored
command_durable_example =
    command_durable (Event.removes 1) stored tt
      (record { disk = _; attached = refl; works = refl; running = refl })

stored-IsWritable : IsWritable stored
unfolding stored playing
stored-IsWritable = record { disk = _; attached = refl; works = refl; running = refl }

-- A player whose disk refuses the next write.
abbrev refused : GuildPlayer
unfolding stored playing
refused = record stored {
  persistence = record stored.persistence {
    store = some (record { saved = durable playing; plays = []; faults = true ∷ [] });
  };
}

-- Somebody puts a track at the head of the queue before each attempt of the worker.
abbrev queueing : ℕ → GuildPlayer → GuildPlayer
queueing k p = record p { queue = ready_entry hymn ∷ p.queue }

-- The hymn is due for a checkpoint.
abbrev due : GuildPlayer
unfolding stored playing
due = record stored { confirmed_offset = 21 * second; checkpoint_offset = 17 * second }

due-IsWritable : IsWritable due
unfolding due stored playing
due-IsWritable = record { disk = _; attached = refl; works = refl; running = refl }

confirm_frame_lem_example :
    let q = (confirm_frame 0 false 1 none due).0 in
    IsCheckpointed q
    × (due.confirmed_offset ≤ q.confirmed_offset)
    × (((q.checkpoint_offset ≡ due.checkpoint_offset) × (q.persistence ≡ due.persistence))
        ⊎ ((q.checkpoint_offset ≡ q.confirmed_offset)
            × (saved_in q.persistence.store ≡ some (durable q))))
unfolding due
confirm_frame_lem_example =
    confirm_frame_lem 0 false 1 none due due-IsWritable (omega arith, omega arith)

-- Two tracks were queued, and the first one plays.
abbrev history : List Event
history =
    Event.attaches 1 ∷ Event.enqueues (hymn ∷ hymn ∷ []) 1 ∷ Event.rounds 0 false blank none ∷ []

restart_lem_example :
    let p = run history (guild_player 480 120 (some saved_rows)) in
    let o =
      configure_store
        (record { saved = durable p; plays = []; faults = [] })
        (guild_player 480 0 none) in
    (o.1 ≡ none)
    × (o.0.loop ≡ p.loop)
    × (o.0.autoplay ≡ p.autoplay)
    × (o.0.queue
        ≡ map ready_entry (
            prepend_current
              (with_offset p.confirmed_offset p.current)
              (map (λ e. e.track) p.queue)))
restart_lem_example =
    restart_lem 480 120 (some saved_rows) history
      (record {
        saved = durable (run history (guild_player 480 120 (some saved_rows)));
        plays = [];
        faults = [];
      })
      0 (omega arith) refl
