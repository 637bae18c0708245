-- ===== src/Player/Examples/Coordinators.antt =====
-- A coordinator that has two positions to search.
use whiterun_music_bot.Base.{
  ℕ, ◌*◌, ◌≤◌, ◌≡◌, refl, true, false, none, some, List, [], ◌∷◌, ◌++◌, arith, leb, is_some, Each,
}
use mathlib.Core.List.Perm
use whiterun_music_bot.Media.Track.{Track, second}
use whiterun_music_bot.Player.State.{GuildPlayer}
use whiterun_music_bot.Player.Collection.{Resolution, reserved, new_job, unresolved}
use whiterun_music_bot.Player.Coordinator.{World, Coordinator, round}
use whiterun_music_bot.Player.Coordinator.Run.{run}
use whiterun_music_bot.Player.Coordinator.Order.{indices}
use whiterun_music_bot.Player.Coordinator.Filled.{filled, open_at}
use whiterun_music_bot.Player.Collection.Laws.{slots_at}
use whiterun_music_bot.Player.Coordinator.Complete.{round_complete}
use whiterun_music_bot.Player.Coordinator.Ends.{run_ends}
use whiterun_music_bot.Player.Examples.{ballad, hymn, waiting}

-- Both positions of a collection of two are reserved.
abbrev collecting : GuildPlayer
unfolding waiting
collecting = record waiting {
  queue = reserved 1 0 ballad ∷ reserved 1 1 hymn ∷ [];
  jobs = new_job 1 0 (ballad ∷ hymn ∷ []) ∷ [];
  prefetch_horizon = 300 * second;
}

abbrev coordinating : Coordinator
coordinating = record {
  player = collecting;
  clock = 0;
  ended = false;
  first = none;
  buffered = λ (i : ℕ). none;
  waiting = [];
  handed = [];
  blocked = false;
  stopped = false;
}

abbrev found_at : ℕ → Track → Resolution
found_at i t = record { index = i; track = t; err = none; skipped = false; blocked = false }

-- The second position's search ends first.
abbrev arrivals : List Resolution
arrivals = found_at 1 hymn ∷ found_at 0 ballad ∷ []

-- Nobody else does anything.
abbrev still : World
still k = record { others = λ (p : GuildPlayer). p; ended = false }

-- The job is canceled after three looks.
abbrev canceled_soon : World
canceled_soon k = record { others = λ (p : GuildPlayer). p; ended = leb 3 k }

arrived : Each (λ (r : Resolution). r.blocked ≡ false) arrivals
arrived = (refl, (refl, tt))

collecting-once : (i : ℕ) → slots_at 1 i collecting.queue ≤ 1
unfolding slots_at waiting
collecting-once i = ground arith

round_complete_example :
    let t = round still 1 (0 ∷ 1 ∷ []) arrivals coordinating in
    (indices t.handed ≡ 0 ∷ 1 ∷ [])
    × (t.player.queue ≡ filled 1 t.handed coordinating.player.queue)
    × Each (λ i. open_at 1 i t.player.queue ≡ 0) (0 ∷ 1 ∷ [])
    × (t.blocked ≡ false)
    × (t.stopped ≡ false)
unfolding waiting indices
round_complete_example =
    round_complete still 1 (0 ∷ 1 ∷ []) arrivals coordinating (λ k. refl) (λ k p h. h) (λ k p. refl)
      refl refl arrived (Perm.swap 0 1 []) collecting-once

run_ends_example :
    (t : Coordinator) × (run canceled_soon 1 2
        (found_at 0 ballad ∷ arrivals ++ arrivals)
        (λ k ws. arrivals)
        5
        coordinating
      ≡ some t)
    × (unresolved 1 t.player.queue ≡ 0)
    × (is_some t.first ≡ true)
run_ends_example =
    run_ends canceled_soon 1 2 3 (found_at 0 ballad ∷ arrivals ++ arrivals) (λ k ws. arrivals) 5
      coordinating (λ k h. ground arith) (omega arith) (omega arith)
