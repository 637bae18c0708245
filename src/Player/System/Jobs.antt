-- ===== src/Player/System/Jobs.antt =====
-- The collection coordinators' sections of internal/player keep the bounds.
use whiterun_music_bot.Base.{
  ℕ, suc, ◌+◌, ◌≤◌, ◌≡◌, refl, ap, Bool, true, false, Option, List, [], ◌∷◌, length, length-append,
  inc64, arith,
}
use whiterun_music_bot.Media.Track.{Track}
use whiterun_music_bot.Media.Errors.{Err}
use whiterun_music_bot.Media.Admission.{Tag, ProviderAdmission}
use whiterun_music_bot.Player.State.{GuildPlayer, QueueEntry}
use whiterun_music_bot.Player.Collection.{
  Resolution, begin_collection, reservations, fill_slot, commit_result, commit_results, commit,
  record_result, end_job, without_pending,
}
use whiterun_music_bot.Player.Resolve.{
  begin_search, end_search, search_failed, provider_step, finish_probe,
}
use whiterun_music_bot.Player.System.Bounds.{
  Inv, Frame-Inv, block_provider-Frame, finish_provider-Frame, return_permit-Frame,
}

length-reservations :
    (job k total : ℕ) (ts : List Track) → length (reservations job k total ts) ≡ length ts
unfolding reservations
length-reservations job k total [] = refl
length-reservations job k total (t ∷ ts) = ap suc (length-reservations job (k + 1) total ts)

pub begin_collection-Inv :
    (done matcher : Bool) (ts : List Track) (skipped ticket : ℕ) (p : GuildPlayer)
    → Inv p
    → Inv (begin_collection done matcher ts skipped ticket p).0
unfolding begin_collection
begin_collection-Inv done matcher ts skipped ticket p i = ground (
  arith,
  length-append p.queue (reservations (inc64 p.next_job) 0 (length ts) ts),
  length-reservations (inc64 p.next_job) 0 (length ts) ts,
)

length-fill_slot :
    (id : ℕ) (r : Resolution) (q : List QueueEntry) → length (fill_slot id r q) ≤ length q
unfolding fill_slot
length-fill_slot id r [] = omega arith
length-fill_slot id r (e ∷ es) = ground (arith, length-fill_slot id r es)

commit_results-Inv :
    (id : ℕ) (rs : List Resolution) (p : GuildPlayer) → Inv p → Inv (commit_results id rs p)
unfolding commit_results
commit_results-Inv id [] p i = i
commit_results-Inv id (r ∷ rs) p i =
    commit_results-Inv id rs (commit_result id r p)
      (unfold commit_result in ground (arith, length-fill_slot id r p.queue))

pub commit-Inv :
    (id : ℕ) (ended : Bool) (rs : List Resolution) (p : GuildPlayer)
    → Inv p
    → Inv (commit id ended rs p).0
unfolding commit
commit-Inv id ended rs p i = ground (arith, commit_results-Inv id rs p i)

pub record_result-Inv :
    (id : ℕ) (r : Resolution) (p : GuildPlayer) → Inv p → Inv (record_result id r p)
unfolding record_result
record_result-Inv id r p i = ground arith

length-without_pending : (id : ℕ) (q : List QueueEntry) → length (without_pending id q) ≤ length q
unfolding without_pending
length-without_pending id [] = omega arith
length-without_pending id (e ∷ es) = ground (arith, length-without_pending id es)

pub end_job-Inv : (id : ℕ) (p : GuildPlayer) → Inv p → Inv (end_job id p)
unfolding end_job
end_job-Inv id p i = ground (arith, length-without_pending id p.queue)

pub begin_search-Inv :
    (now id : ℕ) (ended : Bool) (index : ℕ) (probe : Tag) (g : Option ProviderAdmission)
    (p : GuildPlayer)
    → Inv p
    → Inv (begin_search now id ended index probe g p).0
unfolding begin_search
begin_search-Inv now id ended index probe g p i =
    ground (arith, Frame-Inv p _ (return_permit-Frame now probe g p) i)

provider_step-Inv :
    (now : ℕ) (failed : Bool) (err : Option Err) (g : Option ProviderAdmission) (p : GuildPlayer)
    → Inv p
    → Inv (provider_step now failed err g p).0
provider_step-Inv now true err g p i = Frame-Inv p _ (block_provider-Frame now _ _ p) i
provider_step-Inv now false err g p i = i

finish_probe-Inv :
    (now : ℕ) (err : Option Err) (probe : Tag) (g : Option ProviderAdmission) (p : GuildPlayer)
    → Inv p
    → Inv (finish_probe now err probe g p).0
finish_probe-Inv now err probe g p i =
    ground (arith, Frame-Inv p _ (finish_provider-Frame now err probe g p) i)

pub end_search-Inv :
    (now id : ℕ) (ended : Bool) (index : ℕ) (probe : Tag) (generation : ℕ) (asked found : Track)
    (err : Option Err) (g : Option ProviderAdmission) (p : GuildPlayer)
    → Inv p
    → Inv (end_search now id ended index probe generation asked found err g p).0
unfolding end_search
end_search-Inv now id ended index probe generation asked found err g p i =
    let failed = search_failed id ended index err p in
    let step = provider_step now failed err g p in
    let r = finish_probe-Inv now err probe step.1 step.0 (provider_step-Inv now failed err g p i) in
    record {
      capacity = r.capacity;
      owned = r.owned;
      remembered = r.remembered;
      voice_budget = r.voice_budget;
    }
