-- ===== src/Media/Matching/Selecting.antt =====
-- internal/media/spotify_rank.go (selectSpotifyPolicy): one candidate after the other is verified, and
-- the first whose full metadata confirms the recording is taken.
use whiterun_music_bot.Base.{
  ℕ, ◌+◌, Bool, true, false, not, List, [], ◌∷◌, ◌++◌, String, str_eq, if◌then◌else◌,
}
use whiterun_music_bot.Media.Errors.{
  Err, MatchStatus, confirmed, uncertain, rejected, message, match_error, wrapped, joined, one_of,
  provider_unavailable,
}
use whiterun_music_bot.Media.Matching.{MatchPolicy, is_valid, Evidence, compare_spotify, Candidate}

pub data Verification (M : Type 0) : Type 0 where
  full : Candidate M → Verification M
  failed : Err → Verification M

-- Discovery's summary rank, the verification, the evidence of full metadata, and at which look at the
-- context it has ended, with its error.
pub record SpotifySearch (M : Type 0) : Type 0 where
  pub accepts : Candidate M → Bool
  pub verify : Candidate M → Verification M
  pub evidence : Candidate M → Evidence
  pub ended : ℕ → Bool
  pub ending : Err

pub data Selection (M : Type 0) : Type 0 where
  chosen : Candidate M → Selection M
  refused : Err → Selection M

-- The variables of the loop; `looks` counts its looks at the context.
pub record Progress : Type 0 where
  pub looks : ℕ
  pub seen : List String
  pub saw_uncertain : Bool
  pub errors : List Err

pub data Examined (M : Type 0) : Type 0 where
  proceeds : Progress → Examined M
  decides : Selection M → Examined M

abbrev pub first_progress : Progress
first_progress = record { looks = 0; seen = []; saw_uncertain = false; errors = [] }

abbrev pub wrong_video : Err
wrong_video = message "YouTube returned a different video ID"

-- errors.Join of errors that are not nil.
unfoldable pub join_errors : Err → List Err → Err
join_errors e [] = e
join_errors e (f ∷ es) = joined e (join_errors f es)

module _ {M : Type 0} where
  abbrev pub by_status : MatchStatus → Candidate M → Progress → Examined M
  by_status confirmed f st = decides (chosen f)
  by_status uncertain f st = proceeds (record st { saw_uncertain = true })
  by_status rejected f st = proceeds st

  -- What a verification leads to.
  unfoldable pub judge :
      MatchPolicy → SpotifySearch M → Candidate M → Verification M → Progress → Examined M
  judge p s c (failed e) st =
      if provider_unavailable e
      then decides (refused e)
      else proceeds (record st { errors = st.errors ++ e ∷ [] })
  judge p s c (full f) st =
      if not (str_eq f.id c.id)
      then proceeds (record st { errors = st.errors ++ wrong_video ∷ [] })
      else by_status (compare_spotify p (s.evidence f)) f st

  -- One candidate of the loop.
  unfoldable pub examine : MatchPolicy → SpotifySearch M → Candidate M → Progress → Examined M
  unfolding judge one_of
  examine p s c st =
      if s.ended st.looks
      then decides (refused s.ending)
      else if one_of c.id st.seen
      then proceeds (record st { looks = st.looks + 1 })
      else if not (s.accepts c)
      then proceeds (record st { looks = st.looks + 1; seen = c.id ∷ st.seen })
      else if s.ended (st.looks + 1)
      then decides (refused s.ending)
      else judge p s c (s.verify c) (record st { looks = st.looks + 2; seen = c.id ∷ st.seen })

  abbrev pub doubt : Bool → Selection M
  doubt true = refused (match_error uncertain "insufficient_metadata")
  doubt false = refused (match_error rejected "no_acceptable_candidate")

  -- The end of the loop without a decision.
  abbrev pub conclude : List Err → Bool → Selection M
  conclude [] saw_uncertain = doubt saw_uncertain
  conclude (e ∷ es) saw_uncertain =
      refused (wrapped "candidate verification infrastructure failed: " (join_errors e es))

  abbrev pub follow : Examined M → (Progress → Selection M) → Selection M
  follow (proceeds st) go = go st
  follow (decides r) go = r

  unfoldable pub select_spotify_from :
      MatchPolicy → SpotifySearch M → List (Candidate M) → Progress → Selection M
  unfolding examine
  select_spotify_from p s [] st = conclude st.errors st.saw_uncertain
  select_spotify_from p s (c ∷ cs) st = follow (examine p s c st) (select_spotify_from p s cs)

  -- selectSpotifyPolicy.
  unfoldable pub select_spotify : MatchPolicy → SpotifySearch M → List (Candidate M) → Selection M
  unfolding select_spotify_from is_valid
  select_spotify p s cs =
      if is_valid p
      then select_spotify_from p s cs first_progress
      else refused (message "invalid Spotify match policy")
