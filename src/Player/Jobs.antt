-- ===== src/Player/Jobs.antt =====
-- internal/player/collection.go and internal/player/player.go: what the queue's commands do to the
-- collection jobs that their entries belong to. `p.jobs` is keyed by the job's number.
use whiterun_music_bot.Base.{
  ℕ, Bool, true, false, not, ◌||◌, Option, none, some, List, [], ◌∷◌, map, set, get_or, ◌==◌,
  if◌then◌else◌,
}
use whiterun_music_bot.Player.State.{QueueEntry, Search, idle, stopped, CollectionJob, GuildPlayer}

-- p.jobs[id].
unfoldable pub find_job : ℕ → List CollectionJob → Option CollectionJob
find_job id [] = none
find_job id (j ∷ js) = if j.progress.id == id then some j else find_job id js

-- A change of the job that the pointer p.jobs[id] shares with its coordinator.
unfoldable pub update_job :
    ℕ → (CollectionJob → CollectionJob) → List CollectionJob → List CollectionJob
update_job id f [] = []
update_job id f (j ∷ js) = if j.progress.id == id then f j ∷ js else j ∷ update_job id f js

-- delete(p.jobs, id).
unfoldable pub delete_job : ℕ → List CollectionJob → List CollectionJob
delete_job id [] = []
delete_job id (j ∷ js) = if j.progress.id == id then js else j ∷ delete_job id js

abbrev pub wake : CollectionJob → CollectionJob
wake j = record j { woken = true }

-- wakeCollectionsLocked.
unfoldable pub wake_collections : GuildPlayer → GuildPlayer
wake_collections p = record p { jobs = map wake p.jobs }

-- signal: the scheduler and every collection coordinator are woken; notifications coalesce.
unfoldable pub signal : GuildPlayer → GuildPlayer
unfolding wake_collections
signal p = record (wake_collections p) { woken = true }

abbrev pub cancel_job : CollectionJob → CollectionJob
cancel_job j = record j { canceled = true }

-- cancelJobsLocked.
unfoldable pub cancel_jobs : GuildPlayer → GuildPlayer
cancel_jobs p = record p { jobs = map cancel_job p.jobs }

abbrev pub release : ℕ → CollectionJob → CollectionJob
release position j = wake (record j { wanted = set j.wanted position false })

-- releaseEntryLocked.
unfoldable pub release_entry : QueueEntry → GuildPlayer → GuildPlayer
unfolding update_job
release_entry e p = record p { jobs = update_job e.job_id (release e.position) p.jobs }

unfoldable pub any_wanted : List Bool → Bool
any_wanted [] = false
any_wanted (w ∷ ws) = w || any_wanted ws

abbrev pub stop_search : Search → Search
stop_search idle = idle
stop_search _ = stopped

-- The searches' cancel functions are called; a finished search has none.
abbrev pub stop_at : ℕ → List Search → List Search
stop_at position ss = set ss position (stop_search (get_or ss position idle))

-- discardEntryLocked on its job: the position is no longer wanted, its search is canceled, and a
-- job with no wanted position left is canceled as a whole.
unfoldable pub discard : ℕ → CollectionJob → CollectionJob
unfolding any_wanted
discard position j =
    let released = release position j in
    record released {
      searches = stop_at position released.searches;
      canceled = released.canceled || not (any_wanted released.wanted);
    }

unfoldable pub discard_entry : QueueEntry → List CollectionJob → List CollectionJob
unfolding update_job discard
discard_entry e jobs = update_job e.job_id (discard e.position) jobs

-- The loop of Jump and SkipN over the entries that they drop.
unfoldable pub discard_all : List QueueEntry → List CollectionJob → List CollectionJob
unfolding discard_entry
discard_all [] jobs = jobs
discard_all (e ∷ es) jobs = discard_all es (discard_entry e jobs)

abbrev pub discard_entries : List QueueEntry → GuildPlayer → GuildPlayer
discard_entries es p = record p { jobs = discard_all es p.jobs }

abbrev pub stop_searches : CollectionJob → CollectionJob
stop_searches j = record j { searches = map stop_search j.searches }

-- The loop of blockProviderLocked: every search in flight is canceled.
unfoldable pub cancel_searches : GuildPlayer → GuildPlayer
cancel_searches p = record p { jobs = map stop_searches p.jobs }
