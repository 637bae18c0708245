-- ===== src/Media/Examples/Matches.antt =====
-- Concrete queries, candidates and pools for the theorems on matching and ranking.
use whiterun_music_bot.Base.{
  ℕ, ◌+◌, ◌≤◌, ◌≡◌, ◌⊎◌, ◌↔◌, refl, true, false, ◌&&◌, ◌||◌, none, some, List, [], ◌∷◌, length, leb,
  ◌==◌, if◌then◌else◌, is_some, map, ◌+ℤ◌,
}
use whiterun_music_bot.Media.Errors.{message, extraction, no_cause, extraction_category}
use whiterun_music_bot.Media.Ranking.{Text, codes, contains, token_weight, row_distance}
use whiterun_music_bot.Media.Ranking.Edits.{Edits}
use whiterun_music_bot.Media.Ranking.Rows.{row_distance_lem}
use whiterun_music_bot.Media.Ranking.Weight.{token_weight_typo}
use whiterun_music_bot.Media.Ranking.Music as Music
use whiterun_music_bot.Media.Ranking.Music.{Unicode}
use whiterun_music_bot.Media.Ranking.Score.{score, select_best}
use whiterun_music_bot.Media.Ranking.Best.{IsSelected, select_best_lem}
use whiterun_music_bot.Media.Matching.{default_policy, Candidate, is_valid, deduplicate}
use whiterun_music_bot.Media.Matching.Selecting.{
  full, failed, SpotifySearch, select_spotify, refused,
}
use whiterun_music_bot.Media.Matching.Reference.{settlement, verdicts, select_spotify_lem}
use whiterun_music_bot.Media.Matching.Discovery.{Query, entries}
use whiterun_music_bot.Media.Matching.Mapping.{Revalidation, stored, resolve_spotify, deletes}
use whiterun_music_bot.Media.Matching.Kept.{IsSound, resolve_spotify_lem}
use whiterun_music_bot.Media.Limiter.{
  MatchLimiter, all_slots, background_slots, reserve, enter_background, enter_first, act,
  run_actions,
}
use whiterun_music_bot.Media.Limiter.Room.{limiter_room}

token_weight_typo_example : (token_weight (codes "metalica") (codes "metallica") ≡ 60) ↔ (
    (5 ≤ length (codes "metalica"))
    × (5 ≤ length (codes "metallica"))
    × (contains (codes "metallica") (codes "metalica") ≡ false)
    × (contains (codes "metalica") (codes "metallica") ≡ false)
    × (n : ℕ) × (n ≤ 2)
    × Edits (codes "metalica") (codes "metallica") n)
token_weight_typo_example = token_weight_typo (codes "metalica") (codes "metallica")

row_distance_lem_example :
    Edits (codes "kitten") (codes "sitting") (row_distance (codes "kitten") (codes "sitting"))
    × ((n : ℕ) (s : Edits (codes "kitten") (codes "sitting") n)
        → row_distance (codes "kitten") (codes "sitting") ≤ n)
row_distance_lem_example = row_distance_lem (codes "kitten") (codes "sitting")

-- The letters of ASCII.
abbrev ascii : Unicode
ascii = record {
  lower = λ (c : ℕ). if leb b'A' c && leb c b'Z' then c + 32 else c;
  is_word = λ (c : ℕ). (leb b'a' c && leb c b'z') || (leb b'0' c && leb c b'9');
  is_space = λ (c : ℕ). c == 32;
  equal_fold = λ (s t : Text). false;
}

abbrev song : Text → Music.Candidate
song title = record {
  id = codes "AAAAAAAAAAA";
  title = title;
  channel = codes "Bard - Topic";
  uploader = [];
  description = [];
  categories = [];
  duration = 200000;
  artist = [];
  song = [];
  verified = false;
  live = false;
  live_status = [];
}

abbrev songs : List Music.Candidate
songs = song (codes "The Dragonborn Comes (live)") ∷ song (codes "The Dragonborn Comes") ∷ []

select_best_lem_example :
    IsSelected
      (score ascii (codes "dragonborn comes"))
      songs
      (select_best ascii (codes "dragonborn comes") songs)
select_best_lem_example = select_best_lem ascii (codes "dragonborn comes") songs

-- A video that each of two searches lists.
abbrev listed : Candidate ℕ
listed = record {
  id = "AAAAAAAAAAA";
  channel = "Bard - Topic";
  has_duration = true;
  music_search = false;
  metadata = 7;
}

abbrev verifying : SpotifySearch ℕ
verifying = record {
  accepts = λ (c : Candidate ℕ). true;
  verify = λ (c : Candidate ℕ). full c;
  evidence = λ (c : Candidate ℕ). record {
    reason = "accepted";
    source_class = "topic";
    shared_isrc = false;
    anonymous = false;
  };
  ended = λ (k : ℕ). false;
  ending = message "context canceled";
}

select_spotify_lem_example :
    select_spotify default_policy verifying
      (deduplicate ((some listed ∷ []) ∷ (none ∷ some listed ∷ []) ∷ []))
    ≡ settlement [] false (
        verdicts default_policy verifying
          (deduplicate ((some listed ∷ []) ∷ (none ∷ some listed ∷ []) ∷ [])))
unfolding is_valid
select_spotify_lem_example =
    select_spotify_lem default_policy verifying
      ((some listed ∷ []) ∷ (none ∷ some listed ∷ []) ∷ []) refl (λ k. refl)

-- The verification of a video that is gone, and a search that lists one.
abbrev gone_video : Revalidation ℕ
gone_video = record {
  covered = λ (c : Candidate ℕ). false;
  video = failed (extraction "youtube_video_unavailable" true no_cause);
  is_mismatch = λ e. false;
  ended = false;
}

abbrev music_query : Query ℕ
music_query = record {
  music = true;
  ended_before = false;
  found = entries (some listed ∷ []);
  ended = λ (k : ℕ). false;
  ended_after = false;
}

resolve_spotify_lem_example :
    IsSound default_policy verifying
      (resolve_spotify default_policy verifying gone_video (stored listed) (music_query ∷ []))
resolve_spotify_lem_example =
    resolve_spotify_lem default_policy verifying gone_video (stored listed) (music_query ∷ [])

-- Two background searches have reserved and one of them runs, beside one for a first track.
abbrev busy : MatchLimiter
busy = record { all = 2; background = 2; running_first = 1; running_background = 1; waiting = 1 }

limiter_room_example :
    (busy.running_first + busy.running_background ≤ all_slots)
    × (busy.waiting + busy.running_background ≤ background_slots)
    × ((is_some (act enter_first busy) ≡ true) ⊎ (1 ≤ busy.running_first))
unfolding run_actions act
limiter_room_example =
    limiter_room (reserve ∷ reserve ∷ enter_background ∷ enter_first ∷ []) busy refl

kitten_distance : row_distance (codes "kitten") (codes "sitting") ≡ 3
unfolding row_distance
kitten_distance = refl

weights :
    map (token_weight (codes "dragon")) (
      codes "Dragon"
      ∷ codes "dragon"
      ∷ codes "dragonborn"
      ∷ codes "snapdragon"
      ∷ codes "drgaon"
      ∷ codes "dr"
      ∷ [])
    ≡ 60 ∷ 100 ∷ 35 ∷ 10 ∷ 60 ∷ 0 ∷ []
unfolding token_weight row_distance
weights = refl

-- The version that was not asked for loses.
best_song :
    select_best ascii (codes "dragonborn comes") songs ≡ some (song (codes "The Dragonborn Comes"))
unfolding select_best token_weight ◌+ℤ◌
best_song = refl

-- The mapping of a video that is gone is deleted, and the resolution ends with that error.
gone_mapping :
    resolve_spotify default_policy verifying gone_video (stored listed) (music_query ∷ [])
    ≡ (refused (extraction "youtube_video_unavailable" true no_cause), deletes ∷ [])
unfolding resolve_spotify extraction_category
gone_mapping = refl
