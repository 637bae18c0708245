-- ===== src/Media/Matching.antt =====
-- The matching of recordings with a Spotify track: internal/media/fidelity.go, and deduplicateCandidates
-- of internal/media/spotify_rank.go. How a candidate's
-- metadata is weighed (rankSpotifyPolicy, sourceClass) and what a verification returns are parameters,
-- as is the moment at which the request's context ends.
pub mod Selecting
pub mod Unique
pub mod Reference
pub mod Discovery
pub mod Confirmed
pub mod Mapping
pub mod Kept
use Prim.Native.Char.{code}
use Prim.Native.String as String
use whiterun_music_bot.Base.{
  ℕ, ◌+◌, Bool, true, not, ◌&&◌, ◌||◌, Option, none, some, List, [], ◌∷◌, ◌++◌, String, str_eq, leb,
  ◌==◌, if◌then◌else◌, ℤ, pos, ltb_ℤ,
}
use whiterun_music_bot.Media.Errors.{MatchStatus, confirmed, uncertain, rejected, one_of}

-- The policy's fractions are in thousandths, its duration in nanoseconds.
pub record MatchPolicy : Type 0 where
  pub min_title_precision : ℤ
  pub max_duration_delta : ℤ
  pub max_duration_fraction : ℤ
  pub min_score : ℤ
  pub min_score_margin : ℤ

abbrev pub default_policy : MatchPolicy
default_policy = record {
  min_title_precision = pos 650;
  max_duration_delta = pos 15000000000;
  max_duration_fraction = pos 80;
  min_score = pos 650;
  min_score_margin = pos 20;
}

-- Validate: whether there is no error.
unfoldable pub is_valid : MatchPolicy → Bool
is_valid p =
    ltb_ℤ (pos 0) p.min_title_precision
    && (not (ltb_ℤ (pos 1000) p.min_title_precision)
        && (not (ltb_ℤ p.max_duration_delta (pos 0))
            && (not (ltb_ℤ p.max_duration_fraction (pos 0))
                && (not (ltb_ℤ (pos 250) p.max_duration_fraction)
                    && (not (ltb_ℤ p.min_score (pos 650))
                        && not (ltb_ℤ p.min_score_margin (pos 1)))))))

-- What CompareSpotify reads of full metadata: rankSpotifyPolicy's reason, sourceClass's class, whether
-- a valid ISRC is shared, and whether the metadata names no artist, channel or uploader.
pub record Evidence : Type 0 where
  pub reason : String
  pub source_class : String
  pub shared_isrc : Bool
  pub anonymous : Bool

-- CompareSpotify's status.
unfoldable pub compare_spotify : MatchPolicy → Evidence → MatchStatus
unfolding is_valid one_of
compare_spotify p e =
    if not (is_valid p)
    then rejected
    else if str_eq e.reason "accepted"
    then (if e.shared_isrc
          || one_of e.source_class ("verified_artist" ∷ "topic" ∷ "artist_vevo" ∷ "release" ∷ [])
        then confirmed
        else uncertain)
    else if one_of e.reason ("remaster_year_unknown" ∷ "duration_unknown" ∷ "credits_unknown" ∷ [])
    then uncertain
    else if str_eq e.reason "primary_artist_mismatch" && e.anonymous
    then uncertain
    else rejected

-- A candidate with what else is known of it.
pub record Candidate (M : Type 0) : Type 0 where
  pub id : String
  pub channel : String
  pub has_duration : Bool
  pub music_search : Bool
  pub metadata : M

abbrev pub is_id_rune : ℕ → Bool
is_id_rune c =
    (leb b'A' c && leb c b'Z')
    || ((leb b'a' c && leb c b'z') || ((leb b'0' c && leb c b'9') || (c == b'_' || c == b'-')))

unfoldable pub all_id_runes : String → Bool
all_id_runes String.[] = true
all_id_runes (String.◌∷◌ c s) = is_id_rune (code c) && all_id_runes s

-- The pattern videoID.
unfoldable pub is_video_id : String → Bool
unfolding all_id_runes
is_video_id s = all_id_runes s && String.len s == 11

module _ {M : Type 0} where
  -- A second listing of a video: the richer one stays, and so does the sign of the music search.
  abbrev pub merge : Candidate M → Candidate M → Candidate M
  merge old c =
      let music = old.music_search || c.music_search in
      if not (str_eq c.channel "") || c.has_duration
      then record c { music_search = music }
      else record old { music_search = music }

  abbrev pub ids : List (Candidate M) → List String
  ids [] = []
  ids (c ∷ cs) = c.id ∷ ids cs

  unfoldable pub merge_into : Candidate M → List (Candidate M) → List (Candidate M)
  merge_into c [] = []
  merge_into c (d ∷ ds) = if str_eq c.id d.id then merge d c ∷ ds else d ∷ merge_into c ds

  -- One candidate of a pool; none is a nil pointer.
  unfoldable pub add_candidate : Option (Candidate M) → List (Candidate M) → List (Candidate M)
  unfolding is_video_id merge_into one_of
  add_candidate none result = result
  add_candidate (some c) result =
      if not (is_video_id c.id)
      then result
      else if one_of c.id (ids result)
      then merge_into c result
      else result ++ c ∷ []

  unfoldable pub add_pool : List (Option (Candidate M)) → List (Candidate M) → List (Candidate M)
  unfolding add_candidate
  add_pool [] result = result
  add_pool (o ∷ pool) result = add_pool pool (add_candidate o result)

  unfoldable pub add_pools :
      List (List (Option (Candidate M))) → List (Candidate M) → List (Candidate M)
  unfolding add_pool
  add_pools [] result = result
  add_pools (pool ∷ pools) result = add_pools pools (add_pool pool result)

  unfoldable pub deduplicate : List (List (Option (Candidate M))) → List (Candidate M)
  unfolding add_pools
  deduplicate pools = add_pools pools []
