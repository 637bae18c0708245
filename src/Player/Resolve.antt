-- ===== src/Player/Resolve.antt =====
-- internal/player/collection.go (resolve): the sections before and after a search runs.
use whiterun_music_bot.Base.{
  ℕ, Bool, not, ◌&&◌, ◌||◌, Option, none, some, str_eq, set, ◌==◌, if◌then◌else◌,
}
use whiterun_music_bot.Media.Track.{Track}
use whiterun_music_bot.Media.Errors.{Err, match_error, MatchStatus, message}
use whiterun_music_bot.Media.Errors.Provider.{is_provider_failure}
use whiterun_music_bot.Media.Admission.{Tag, is_blank, ProviderAdmission}
use whiterun_music_bot.Player.State.{GuildPlayer, CollectionJob, Search, idle, running}
use whiterun_music_bot.Player.Jobs.{find_job, update_job}
use whiterun_music_bot.Player.Provider.{block_provider, finish_provider}
use whiterun_music_bot.Player.Scheduler.{return_permit}
use whiterun_music_bot.Player.Finish.{observe_gate, gate_status, err_category}
use whiterun_music_bot.Player.Horizon.{resolution_horizon}
use whiterun_music_bot.Player.Collection.{Resolution, wanted_at}

-- What comes of an attempt to search a position.
pub data Admittance : Type 0 where
  held_back passed_over : Admittance
  searching : ℕ → Admittance

abbrev pub set_search : ℕ → Search → CollectionJob → CollectionJob
set_search index s j = record j { searches = set j.searches index s }

-- The section before the search, with the permit that waitProvider gave: what is wanted and near
-- enough is searched, under the provider generation of now.
unfoldable pub begin_search :
    ℕ
    → ℕ
    → Bool
    → ℕ
    → Tag
    → Option ProviderAdmission
    → GuildPlayer
    → GuildPlayer × Admittance × Option ProviderAdmission
unfolding find_job update_job resolution_horizon
begin_search now id ended index probe g p =
    let (returned, g') = return_permit now probe g p in
    if p.provider.blocked && is_blank probe
    then (p, held_back, g)
    else if not (wanted_at index (find_job id p.jobs)) || ended
    then (returned, passed_over, g')
    else if not (resolution_horizon id index p).1
    then (returned, held_back, g')
    else (
      record p { jobs = update_job id (set_search index running) p.jobs },
      searching p.provider.generation,
      g,
    )

-- The match's result against the metadata that it was searched for.
unfoldable pub checked : Track → Track → Option Err → Option Err
checked asked found (some e) = some e
checked asked found none =
    if not (str_eq asked.spotify_id "") && not (str_eq found.spotify_id asked.spotify_id)
    then some (match_error MatchStatus.rejected "spotify_identity_mismatch")
    else if str_eq found.url ""
    then some (message "Could not find a matching YouTube recording for this Spotify track.")
    else none

abbrev pub provider_step :
    ℕ
    → Bool
    → Option Err
    → Option ProviderAdmission
    → GuildPlayer
    → GuildPlayer × Option ProviderAdmission
provider_step now failed err g p =
    let seen = observe_gate now err g in
    if failed then (block_provider now (gate_status seen) (err_category err) p, seen) else (p, g)

abbrev pub finish_probe :
    ℕ
    → Option Err
    → Tag
    → Option ProviderAdmission
    → GuildPlayer
    → GuildPlayer × Option ProviderAdmission
finish_probe now err probe g p =
    if is_blank probe then (p, g) else finish_provider now err probe g p

-- A failure of the provider, in a search that is still wanted.
unfoldable pub search_failed : ℕ → Bool → ℕ → Option Err → GuildPlayer → Bool
unfolding is_provider_failure find_job
search_failed id ended index err p =
    is_provider_failure err && (wanted_at index (find_job id p.jobs) && not ended)

-- The section after the search and the checks after it. `ended` is the job's context, `generation`
-- what begin_search recorded; of a blocked result nothing else is read. A search that an older provider incident canceled is no failure of its
-- track.
unfoldable pub end_search :
    ℕ
    → ℕ
    → Bool
    → ℕ
    → Tag
    → ℕ
    → Track
    → Track
    → Option Err
    → Option ProviderAdmission
    → GuildPlayer
    → GuildPlayer × Resolution × Option ProviderAdmission
unfolding find_job update_job checked
end_search now id ended index probe generation asked found err g p =
    let skipped = not (wanted_at index (find_job id p.jobs)) in
    let failed = search_failed id ended index err p in
    let (q, g') = provider_step now failed err g p in
    let (r, g'') = finish_probe now err probe g' q in
    let blocked =
      failed
      || ((r.provider.blocked && is_blank probe) || not (r.provider.generation == generation)) in
    (
      record r { jobs = update_job id (set_search index idle) r.jobs },
      record {
        index = index;
        track = record found { position = asked.position; total = asked.total };
        err = if blocked then none else checked asked found err;
        skipped = skipped && not blocked;
        blocked = blocked;
      },
      g'',
    )
