-- ===== src/Media/Examples/Caching.antt =====
-- Concrete inputs for the theorems on the search cache.
use whiterun_music_bot.Base.{
  ℕ, ◌≤◌, ◌<◌, ◌≡◌, refl, ◌⊎◌, arith, Bool, true, false, none, some, List, [], ◌∷◌, str_eq, length,
  ltb, if◌then◌else◌,
}
use whiterun_music_bot.Media.Cache.{
  Resolved, CacheEntry, find, fresh, expiry, put, get, invalidate, search_cache_limit,
}
use whiterun_music_bot.Media.Cache.Laws.{IsCache}
use whiterun_music_bot.Media.Cache.Refinement.{seen, IsOldest, seen_lem}
use whiterun_music_bot.Media.Cache.Flights.{SearchFlight, SearchCache, enter_search, join_flight}
use whiterun_music_bot.Media.Cache.Flights.Invariant.{empty, enters, Reach, at_start, then_step}
use whiterun_music_bot.Media.Cache.Flights.Single.{live-single}

abbrev found_track : Resolved
found_track = record {
  track = record {
    resume_offset = 0;
    spotify_id = "";
    requested_source = "";
    live = false;
    position = 0;
    total = 0;
    video_id = "v";
    title = "t";
    url = "u";
    duration = 0;
  };
  checked_at = none;
}

abbrev cached : List CacheEntry
cached = record { key = "a"; value = found_track; expires = 50 } ∷ []

cached-IsCache : IsCache cached
unfolding find
cached-IsCache = record { distinct = (refl, tt); bounded = omega arith }

seen_lem_example :
    IsCache (put "b" found_track 10 cached)
    × ((seen (put "b" found_track 10 cached) "a" 20 ≡ (
          if str_eq "b" "a"
          then (if ltb 20 (expiry "b" found_track 10) then some found_track else none)
          else seen cached "a" 20))
        ⊎ ((str_eq "b" "a" ≡ false)
            × (seen (put "b" found_track 10 cached) "a" 20 ≡ none)
            × ((search_cache_limit ≤ length (fresh 10 cached)) × IsOldest "a" (fresh 10 cached))))
    × (seen (get "b" 10 cached).0 "a" 20 ≡ seen cached "a" 20)
    × (seen (invalidate "b" cached) "a" 20 ≡ (if str_eq "a" "b" then none else seen cached "a" 20))
seen_lem_example = seen_lem "b" "a" found_track 10 20 cached cached-IsCache (omega arith)

abbrev any_track : Resolved → Bool
any_track r = true

-- One caller waits for a search of the key "a".
abbrev searching : SearchCache
searching = (enter_search false any_track "a" 5 empty).0

abbrev flight : SearchFlight
flight = record { key = "a"; waiters = 1; canceled = false; result = none }

searching-Reach : Reach searching
searching-Reach = then_step at_start (enters false any_track "a" 5)

live-single_example : (◌≡◌ {A = ℕ} 0 0) × (0 < flight.waiters)
unfolding enter_search join_flight find
live-single_example =
    live-single searching 0 0 flight flight searching-Reach refl refl refl refl refl
