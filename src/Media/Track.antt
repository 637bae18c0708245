-- ===== src/Media/Track.antt =====
-- internal/media/resolver.go: the fields of a track that scheduling, persistence and matching read.
-- A `time.Duration` is its nanoseconds; the ones here are never negative. `CloneTrack` detaches
-- pointers, which a value has none of.
use whiterun_music_bot.Base.{ℕ, Bool, String}

pub record Track : Type 0 where
  pub resume_offset : ℕ
  pub spotify_id : String
  pub requested_source : String
  pub live : Bool
  pub position : ℕ
  pub total : ℕ
  pub video_id : String
  pub title : String
  pub url : String
  pub duration : ℕ

abbrev pub second : ℕ
second = 1000000000

abbrev pub millisecond : ℕ
millisecond = 1000000
