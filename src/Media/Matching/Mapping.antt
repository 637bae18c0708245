-- ===== src/Media/Matching/Mapping.antt =====
-- internal/media/spotify_rank.go (resolveSpotify): a recording that was matched before is looked up
-- first, and a match is kept. The failures of saving and deleting a mapping are only logged.
use whiterun_music_bot.Base.{
  Bool, true, false, not, ◌&&◌, Option, none, some, List, [], ◌∷◌, str_eq, if◌then◌else◌,
}
use whiterun_music_bot.Media.Errors.{
  Err, MatchStatus, confirmed, uncertain, rejected, extraction_category,
}
use whiterun_music_bot.Media.Matching.{MatchPolicy, compare_spotify, Candidate, is_video_id}
use whiterun_music_bot.Media.Matching.Selecting.{
  Verification, full, failed, SpotifySearch, Selection, chosen, refused,
}
use whiterun_music_bot.Media.Matching.Discovery.{Query, discover_spotify}

-- LoadMapping, where there is a store of mappings: a failure, no mapping, or one.
pub data Loaded (M : Type 0) : Type 0 where
  no_store unreadable absent : Loaded M
  stored : Candidate M → Loaded M

-- What the look at a mapping needs: whether its proof covers the request (proofCovers), the
-- verification of its video, whether an error is errVideoIdentityMismatch, and whether the context has
-- ended after the mapping was deleted.
pub record Revalidation (M : Type 0) : Type 0 where
  pub covered : Candidate M → Bool
  pub video : Verification M
  pub is_mismatch : Err → Bool
  pub ended : Bool

pub data MappingWrite (M : Type 0) : Type 0 where
  saves : Candidate M → MappingWrite M
  deletes : MappingWrite M

abbrev pub is_confirmed : MatchStatus → Bool
is_confirmed confirmed = true
is_confirmed uncertain = false
is_confirmed rejected = false

module _ {M : Type 0} where
  -- Whether the mapping's video, verified again, is the recording still.
  abbrev pub reconfirmed : MatchPolicy → SpotifySearch M → Candidate M → Candidate M → Bool
  reconfirmed p s cached f =
      str_eq f.id cached.id && is_confirmed (compare_spotify p (s.evidence f))

  -- The result of the look at a mapping, if it is one, and what is written.
  unfoldable pub revalidate :
      MatchPolicy
      → SpotifySearch M
      → Revalidation M
      → Candidate M
      → Verification M
      → Option (Selection M) × List (MappingWrite M)
  revalidate p s r cached (full f) =
      if reconfirmed p s cached f
      then (some (chosen f), saves f ∷ [])
      else if r.ended
      then (some (refused s.ending), deletes ∷ [])
      else (none, deletes ∷ [])
  revalidate p s r cached (failed e) =
      if not (r.is_mismatch e) && not (str_eq (extraction_category e) "youtube_video_unavailable")
      then (some (refused e), [])
      else if r.ended
      then (some (refused s.ending), deletes ∷ [])
      else if not (r.is_mismatch e)
      then (some (refused e), deletes ∷ [])
      else (none, deletes ∷ [])

  unfoldable pub try_mapping :
      MatchPolicy
      → SpotifySearch M
      → Revalidation M
      → Loaded M
      → Option (Selection M) × List (MappingWrite M)
  unfolding revalidate is_video_id
  try_mapping p s r no_store = (none, [])
  try_mapping p s r unreadable = (none, [])
  try_mapping p s r absent = (none, [])
  try_mapping p s r (stored cached) =
      if not (is_video_id cached.id)
      then (none, [])
      else if r.covered cached && is_confirmed (compare_spotify p (s.evidence cached))
      then (some (chosen cached), [])
      else revalidate p s r cached r.video

  abbrev pub has_store : Loaded M → Bool
  has_store no_store = false
  has_store _ = true

  -- A discovered recording is kept where there is a store.
  abbrev pub keep_match : Bool → Selection M → List (MappingWrite M) → List (MappingWrite M)
  keep_match true (chosen c) writes = saves c ∷ writes
  keep_match false (chosen c) writes = writes
  keep_match store (refused e) writes = writes

  abbrev pub complete_with :
      Bool
      → Selection M
      → Option (Selection M) × List (MappingWrite M)
      → Selection M × List (MappingWrite M)
  complete_with store found (some r, writes) = (r, writes)
  complete_with store found (none, writes) = (found, keep_match store found writes)

  -- resolveSpotify: its result and its writes, the last one first.
  unfoldable pub resolve_spotify :
      MatchPolicy
      → SpotifySearch M
      → Revalidation M
      → Loaded M
      → List (Query M)
      → Selection M × List (MappingWrite M)
  unfolding try_mapping discover_spotify
  resolve_spotify p s r loaded qs =
      complete_with (has_store loaded) (discover_spotify p s qs) (try_mapping p s r loaded)
