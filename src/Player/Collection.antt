-- ===== src/Player/Collection.antt =====
-- internal/player/collection.go: a collection's reservation of queue positions, and how its results
-- are committed, counted and closed. A job's coordinator is one goroutine; each function here is one
-- section of it under the player's mutex.
pub mod Laws
pub mod Progress
use whiterun_music_bot.Base.{
  ℕ, ◌+◌, Bool, true, false, not, ◌&&◌, ◌||◌, Option, none, some, List, [], ◌∷◌, ◌++◌, length, set,
  get_or, replicate, ltb, ◌==◌, if◌then◌else◌, is_some, inc64,
}
use whiterun_music_bot.Media.Track.{Track}
use whiterun_music_bot.Media.Errors.{Err, uncertain, match_error, stream, wrapped, joined}
use whiterun_music_bot.Player.State.{
  GuildPlayer, QueueEntry, CollectionJob, CollectionProgress, idle, CommandError, Outcome, mutation,
  max_queue_tracks,
}
use whiterun_music_bot.Player.Jobs.{find_job, update_job, delete_job, signal}
use whiterun_music_bot.Player.Durable.{persist}
use whiterun_music_bot.Player.Commands.{numbered, is_stale}
use whiterun_music_bot.Player.Horizon.{resolution_horizon}

abbrev pub max_collection_tracks : ℕ
max_collection_tracks = 500

abbrev pub reserved : ℕ → ℕ → Track → QueueEntry
reserved job i t = record { track = t; pending = true; job_id = job; position = i }

unfoldable pub reservations : ℕ → ℕ → ℕ → List Track → List QueueEntry
reservations job i total [] = []
reservations job i total (t ∷ ts) =
    reserved job i (numbered i total t) ∷ reservations job (i + 1) total ts

unfoldable pub metadata_from : ℕ → ℕ → List Track → List Track
metadata_from i total [] = []
metadata_from i total (t ∷ ts) = numbered i total t ∷ metadata_from (i + 1) total ts

unfoldable pub new_job : ℕ → ℕ → List Track → CollectionJob
unfolding metadata_from
new_job id skipped tracks = record {
  metadata = metadata_from 0 (length tracks) tracks;
  wanted = replicate (length tracks) true;
  searches = replicate (length tracks) idle;
  recorded = replicate (length tracks) false;
  canceled = false;
  woken = false;
  progress = record {
    uncertain = 0;
    metadata_skipped = skipped;
    id = id;
    total = length tracks;
    resolved = 0;
    failed = 0;
    skipped = 0;
  };
}

-- BeginCollection, for a collection's tracks and its count of skipped ones. `done` is whether the
-- request's context has ended. Its deferred save runs on every path.
unfoldable pub begin_collection : Bool → Bool → List Track → ℕ → ℕ → GuildPlayer → Outcome
unfolding reservations new_job signal persist
begin_collection done has_matcher tracks skipped ticket p =
    let id = inc64 p.next_job in
    if is_stale ticket p || done
    then (persist p, some CommandError.stale_ticket)
    else if length tracks == 0 || (ltb max_collection_tracks (length tracks) || not has_matcher)
    then (persist p, some CommandError.no_tracks)
    else if ltb max_queue_tracks (length tracks + length p.queue)
    then (persist p, some CommandError.collection_too_long)
    else (
      persist (
          signal (
            mutation (record p {
              halted = false;
              failures = 0;
              next_job = id;
              queue = p.queue ++ reservations id 0 (length tracks) tracks;
              jobs = new_job id skipped tracks ∷ p.jobs;
            }))),
      none,
    )

-- collectionResolution.
pub record Resolution : Type 0 where
  pub index : ℕ
  pub track : Track
  pub err : Option Err
  pub skipped : Bool
  pub blocked : Bool

abbrev pub is_slot : ℕ → ℕ → QueueEntry → Bool
is_slot id index e = e.job_id == id && e.position == index

unfoldable pub has_slot : ℕ → ℕ → List QueueEntry → Bool
has_slot id index [] = false
has_slot id index (e ∷ es) = is_slot id index e || has_slot id index es

abbrev pub is_dropped : Resolution → Bool
is_dropped r = is_some r.err || r.skipped

-- The first slot of the result is filled or removed. A result whose slot is gone changes nothing.
unfoldable pub fill_slot : ℕ → Resolution → List QueueEntry → List QueueEntry
fill_slot id r [] = []
fill_slot id r (e ∷ es) =
    if is_slot id r.index e
    then (if is_dropped r then es else record e { track = r.track; pending = false } ∷ es)
    else e ∷ fill_slot id r es

abbrev pub unwant : ℕ → CollectionJob → CollectionJob
unwant index j = record j { wanted = set j.wanted index false }

-- One result of commit's loop.
unfoldable pub commit_result : ℕ → Resolution → GuildPlayer → GuildPlayer
unfolding has_slot fill_slot update_job
commit_result id r p = record p {
  queue = fill_slot id r p.queue;
  jobs =
      if has_slot id r.index p.queue && is_dropped r
      then update_job id (unwant r.index) p.jobs
      else p.jobs;
  queue_version = if has_slot id r.index p.queue then inc64 p.queue_version else p.queue_version;
}

unfoldable pub commit_results : ℕ → List Resolution → GuildPlayer → GuildPlayer
unfolding commit_result
commit_results id [] p = p
commit_results id (r ∷ rs) p = commit_results id rs (commit_result id r p)

-- commit by job `id`, whose context has ended or not: whether the coordinator goes on. The save is
-- deferred.
unfoldable pub commit : ℕ → Bool → List Resolution → GuildPlayer → GuildPlayer × Bool
unfolding commit_results signal persist
commit id ended results p =
    if p.provider.blocked
    then (persist p, true)
    else if ended
    then (persist p, false)
    else (persist (signal (commit_results id results p)), true)

-- errors.As(err, &*MatchError), and its status.
unfoldable pub is_uncertain : Err → Option Bool
is_uncertain (match_error uncertain reason) = some true
is_uncertain (match_error _ reason) = some false
is_uncertain (stream category e) = is_uncertain e
is_uncertain (wrapped prefix e) = is_uncertain e
is_uncertain (joined a b) = elim (is_uncertain a) [ none ↦ is_uncertain b | some u ↦ some u ]
is_uncertain _ = none

abbrev pub uncertain_count : Option Bool → ℕ
uncertain_count (some true) = 1
uncertain_count _ = 0

unfoldable pub count_result : Bool → Option Err → CollectionProgress → CollectionProgress
unfolding is_uncertain
count_result true err c = record c { skipped = c.skipped + 1 }
count_result false none c = record c { resolved = c.resolved + 1 }
count_result false (some e) c = record c {
  failed = c.failed + 1;
  uncertain = c.uncertain + uncertain_count (is_uncertain e);
}

-- record, on the job: each position is counted once.
unfoldable pub record_job : Resolution → CollectionJob → CollectionJob
unfolding count_result
record_job r j =
    let lost = r.skipped || (not (get_or j.wanted r.index false) || j.canceled) in
    if get_or j.recorded r.index false then j else record j {
      recorded = set j.recorded r.index true;
      progress = count_result lost r.err j.progress;
    }

unfoldable pub record_result : ℕ → Resolution → GuildPlayer → GuildPlayer
unfolding record_job update_job
record_result id r p =
    if p.provider.blocked then p else record p { jobs = update_job id (record_job r) p.jobs }

-- What a job's end leaves of the queue: everything but its unresolved positions.
unfoldable pub without_pending : ℕ → List QueueEntry → List QueueEntry
without_pending id [] = []
without_pending id (e ∷ es) =
    let rest = without_pending id es in if e.job_id == id && e.pending then rest else e ∷ rest

abbrev pub progress_list : Option CollectionJob → List CollectionProgress
progress_list none = []
progress_list (some j) = j.progress ∷ []

-- The deferred end of run.
unfoldable pub end_job : ℕ → GuildPlayer → GuildPlayer
unfolding without_pending find_job delete_job signal persist
end_job id p =
    let kept = persist (record p { queue = without_pending id p.queue }) in
    signal (record kept {
      completed_imports = progress_list (find_job id p.jobs);
      jobs = delete_job id p.jobs;
    })

abbrev pub collection_prefetch : ℕ
collection_prefetch = 6

abbrev pub wanted_at : ℕ → Option CollectionJob → Bool
wanted_at position none = false
wanted_at position (some j) = get_or j.wanted position false

-- The loop of run over the queue: the positions to search now, among the job's first six entries.
unfoldable pub window_from : GuildPlayer → ℕ → ℕ → List QueueEntry → List ℕ
unfolding resolution_horizon find_job
window_from p id seen [] = []
window_from p id seen (e ∷ es) =
    let rest = window_from p id (if e.job_id == id then seen + 1 else seen) es in
    if e.job_id == id
      && (ltb seen collection_prefetch
          && ((resolution_horizon id e.position p).1
              && (e.pending && wanted_at e.position (find_job id p.jobs))))
    then e.position ∷ rest
    else rest

unfoldable pub window : ℕ → GuildPlayer → List ℕ
unfolding window_from
window id p = window_from p id 0 p.queue

-- How many of the job's positions are unresolved; at 0 the coordinator ends.
unfoldable pub unresolved : ℕ → List QueueEntry → ℕ
unresolved id [] = 0
unresolved id (e ∷ es) = (if e.job_id == id && e.pending then 1 else 0) + unresolved id es
