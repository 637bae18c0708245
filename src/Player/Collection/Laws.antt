-- ===== src/Player/Collection/Laws.antt =====
-- What a collection's commits, counts and end do to the queue and to its progress.
use whiterun_music_bot.Base.{
  ℕ, ◌+◌, ◌-◌, ◌≤◌, ◌≡◌, refl, Bool, List, [], ◌∷◌, length, arith, ◌==◌, if◌then◌else◌,
}
use whiterun_music_bot.Player.State.{GuildPlayer, QueueEntry}
use whiterun_music_bot.Player.Collection.{
  Resolution, is_slot, fill_slot, commit_result, commit_results, commit, without_pending, end_job,
  window, window_from, unresolved, collection_prefetch,
}

-- The entries of a queue that belong to no position of the job.
unfoldable pub others : ℕ → List QueueEntry → List QueueEntry
others id [] = []
others id (e ∷ es) = if e.job_id == id then others id es else e ∷ others id es

-- How many entries are the job's.
unfoldable pub slots : ℕ → List QueueEntry → ℕ
slots id [] = 0
slots id (e ∷ es) = (if e.job_id == id then 1 else 0) + slots id es

-- How often the position stands in the queue.
unfoldable pub slots_at : ℕ → ℕ → List QueueEntry → ℕ
slots_at id index [] = 0
slots_at id index (e ∷ es) = (if is_slot id index e then 1 else 0) + slots_at id index es

fill_slot-others :
    (id : ℕ) (r : Resolution) (q : List QueueEntry) → others id (fill_slot id r q) ≡ others id q
unfolding fill_slot others
fill_slot-others id r [] = refl
fill_slot-others id r (e ∷ es) = ground (arith, fill_slot-others id r es)

pub fill_slot-slots_at :
    (id index : ℕ) (r : Resolution) (q : List QueueEntry)
    → slots_at id index (fill_slot id r q) ≤ slots_at id index q
unfolding fill_slot slots_at
fill_slot-slots_at id index r [] = omega arith
fill_slot-slots_at id index r (e ∷ es) = ground (arith, fill_slot-slots_at id index r es)

commit_results-queue :
    (id index : ℕ) (rs : List Resolution) (p : GuildPlayer)
    → (others id (commit_results id rs p).queue ≡ others id p.queue)
      × (slots_at id index (commit_results id rs p).queue ≤ slots_at id index p.queue)
unfolding commit_results commit_result
commit_results-queue id index [] p = ground arith
commit_results-queue id index (r ∷ rs) p = ground (
  arith,
  commit_results-queue id index rs (commit_result id r p),
  fill_slot-others id r p.queue,
  fill_slot-slots_at id index r p.queue,
)

-- A commit touches only its own job's positions: all other entries of the queue stay, in their order.
-- And it never brings a position back: none stands in the queue more often than before, so that one
-- that was removed, skipped or cleared stays away.
pub commit_queue :
    (id index : ℕ) (ended : Bool) (rs : List Resolution) (p : GuildPlayer)
    → (others id (commit id ended rs p).0.queue ≡ others id p.queue)
      × (slots_at id index (commit id ended rs p).0.queue ≤ slots_at id index p.queue)
unfolding commit
commit_queue id index ended rs p = ground (arith, commit_results-queue id index rs p)

window_from-length :
    (p : GuildPlayer) (id seen : ℕ) (q : List QueueEntry)
    → length (window_from p id seen q) ≤ collection_prefetch - seen
unfolding window_from
window_from-length p id seen [] = ground arith
window_from-length p id seen (e ∷ es) =
    ground (arith, window_from-length p id seen es, window_from-length p id (seen + 1) es)

-- A coordinator searches at most six positions at a time.
window_bounded : (id : ℕ) (p : GuildPlayer) → length (window id p) ≤ collection_prefetch
unfolding window
window_bounded id p = omega (arith, window_from-length p id 0 p.queue)

without_pending-others :
    (id : ℕ) (q : List QueueEntry)
    → (others id (without_pending id q) ≡ others id q) × (unresolved id (without_pending id q) ≡ 0)
unfolding without_pending others unresolved
without_pending-others id [] = (refl, refl)
without_pending-others id (e ∷ es) = ground (arith, without_pending-others id es)

-- The end of a job, however it came, leaves none of its positions unresolved in the queue and keeps
-- all entries of others, in their order.
pub end_job_lem :
    (id : ℕ) (p : GuildPlayer)
    → (unresolved id (end_job id p).queue ≡ 0)
      × (others id (end_job id p).queue ≡ others id p.queue)
unfolding end_job
end_job_lem id p = ground (arith, without_pending-others id p.queue)
