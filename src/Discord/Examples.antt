-- ===== src/Discord/Examples.antt =====
-- A guild whose channel has been empty for two minutes.
use whiterun_music_bot.Base.{ℕ, ◌+◌, ◌*◌, ◌≤◌, ◌≡◌, refl, true, false, none, some, List, [], ◌∷◌}
use whiterun_music_bot.Media.Track.{second}
use whiterun_music_bot.Player.State.{new}
use whiterun_music_bot.Discord.Idle.{
  Guild, empty_channel_grace, Watch, Event, watches, changes, happen_all,
}
use whiterun_music_bot.Discord.Idle.Grace.{IsQuiet, watch_grace}

abbrev connected_guild : Guild
connected_guild = record {
  player = new;
  connected = true;
  channel = 4;
  empty_since = none;
  unhealthy_since = none;
  search_context = 1;
  announcement_channel = 0;
  announcement_epoch = 0;
}

abbrev empty_round : ℕ → Watch
empty_round seconds = record {
  now = seconds * second;
  main_ready = true;
  voice_ready = true;
  known = true;
  same_channel = true;
  listeners = false;
  shutting = false;
}

-- A bot comes in meanwhile, and somebody enters another channel.
abbrev quiet_events : List Event
quiet_events =
    watches (empty_round 1)
    ∷ changes true (some 4)
    ∷ changes false (some 5)
    ∷ watches (empty_round 60)
    ∷ []

watch_grace_example :
    (t : ℕ) × IsQuiet quiet_events t (happen_all quiet_events connected_guild).channel
    × (t + empty_channel_grace ≤ (empty_round 121).now)
    × ((empty_round 121).listeners ≡ false)
    × ((empty_round 121).shutting ≡ false)
unfolding happen_all
watch_grace_example = watch_grace quiet_events (empty_round 121) connected_guild refl refl refl
