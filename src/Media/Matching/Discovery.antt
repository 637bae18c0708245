-- ===== src/Media/Matching/Discovery.antt =====
-- internal/media/spotify_discovery.go (discoverSpotify): up to four searches, and a selection after
-- each over all that was found. A verification is kept under its video's identity and never made
-- twice, so it is a function of the candidate here.
use whiterun_music_bot.Base.{
  ℕ, Bool, true, false, ◌||◌, Option, none, some, List, [], ◌∷◌, ◌++◌, if◌then◌else◌,
}
use whiterun_music_bot.Media.Errors.{
  Err, MatchStatus, uncertain, message, match_error, stream, wrapped, joined, provider_unavailable,
}
use whiterun_music_bot.Media.Matching.{MatchPolicy, is_valid, Candidate, deduplicate}
use whiterun_music_bot.Media.Matching.Selecting.{
  SpotifySearch, Selection, chosen, refused, select_spotify, join_errors, doubt,
}

-- errors.As with a *MatchError: its status.
unfoldable pub as_match : Err → Option MatchStatus
as_match (match_error status reason) = some status
as_match (stream category e) = as_match e
as_match (wrapped prefix e) = as_match e
as_match (joined a b) = elim (as_match a) [ none ↦ as_match b | some m ↦ some m ]
as_match _ = none

-- What a search brings; `nothing` when the context ended just before it.
pub data Found (M : Type 0) : Type 0 where
  nothing : Found M
  failed_search : Err → Found M
  entries : List (Option (Candidate M)) → Found M

-- One of the queries: whether the context has ended before it, its search, the looks of the selection
-- at the context, and whether it has ended after it. `music` marks what the music search lists.
pub record Query (M : Type 0) : Type 0 where
  pub music : Bool
  pub ended_before : Bool
  pub found : Found M
  pub ended : ℕ → Bool
  pub ended_after : Bool

pub record Discovery (M : Type 0) : Type 0 where
  pub pools : List (List (Option (Candidate M)))
  pub failures : List Err
  pub saw_uncertain : Bool

abbrev pub first_unavailable : List Err → Option Err
first_unavailable [] = none
first_unavailable (e ∷ es) = if provider_unavailable e then some e else first_unavailable es

abbrev pub is_uncertain_status : MatchStatus → Bool
is_uncertain_status uncertain = true
is_uncertain_status _ = false

module _ {M : Type 0} where
  abbrev pub marked : Bool → List (Option (Candidate M)) → List (Option (Candidate M))
  marked music [] = []
  marked music (none ∷ es) = marked music es
  marked music (some c ∷ es) =
      some (record c { music_search = c.music_search || music }) ∷ marked music es

  -- The closure `lookup`.
  abbrev pub lookup : Bool → Found M → Discovery M → Discovery M
  lookup music nothing d = d
  lookup music (failed_search e) d = record d { failures = d.failures ++ e ∷ [] }
  lookup music (entries es) d = record d { pools = d.pools ++ marked music es ∷ [] }

  abbrev pub with_error : Option MatchStatus → Err → Discovery M → Discovery M
  with_error (some m) e d = record d { saw_uncertain = d.saw_uncertain || is_uncertain_status m }
  with_error none e d = record d { failures = d.failures ++ e ∷ [] }

  -- What the errors of all searches and selections come to.
  abbrev pub give_up : List Err → Bool → Selection M
  give_up [] saw_uncertain = doubt saw_uncertain
  give_up (e ∷ es) saw_uncertain = refused (join_errors e es)

  -- After a selection: the result of the discovery, or that the next query follows.
  abbrev pub after_selection : Err → Query M → Selection M → Option (Selection M)
  after_selection ending q (chosen c) = some (chosen c)
  after_selection ending q (refused e) =
      if provider_unavailable e
      then some (refused e)
      else if q.ended_after
      then some (refused ending)
      else none

  abbrev pub learned : Selection M → Discovery M → Discovery M
  learned (chosen c) d = d
  learned (refused e) d = with_error (as_match e) e d

  abbrev pub is_nil : List (List (Option (Candidate M))) → Bool
  is_nil [] = true
  is_nil _ = false

  -- The context of one query's selection.
  abbrev pub in_query : SpotifySearch M → Query M → SpotifySearch M
  in_query s q = record s { ended = q.ended }

  abbrev pub decided : Option (Selection M) → Selection M → Selection M
  decided none r = r
  decided (some q) r = q

  unfoldable pub discover_from :
      MatchPolicy → SpotifySearch M → List (Query M) → Discovery M → Selection M
  unfolding as_match
  discover_from p s [] d = give_up d.failures d.saw_uncertain
  discover_from p s (q ∷ qs) d =
      let d' = lookup q.music q.found d in
      let selected = select_spotify p (in_query s q) (deduplicate d'.pools) in
      let next = discover_from p s qs (if is_nil d'.pools then d' else learned selected d') in
      if q.ended_before then refused s.ending else elim (first_unavailable d'.failures) [
        | some e ↦ refused e
        | none ↦
            if is_nil d'.pools then next else decided (after_selection s.ending q selected) next
      ]

  unfoldable pub discover_spotify : MatchPolicy → SpotifySearch M → List (Query M) → Selection M
  unfolding discover_from is_valid
  discover_spotify p s qs =
      if is_valid p
      then discover_from p s qs (record { pools = []; failures = []; saw_uncertain = false })
      else refused (message "invalid Spotify match policy")
