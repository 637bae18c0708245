-- ===== src/Player/Collection/Progress.antt =====
-- A collection job's counts, whatever happens to it between its start and its end.
use whiterun_music_bot.Base.{
  ℕ, suc, zero, ◌+◌, ◌≤◌, ◌<◌, ◌≡◌, refl, Bool, true, false, not, ◌||◌, Option, none, some, List,
  [], ◌∷◌, length, arith, Bool-cases, replicate, set, get_or, if◌then◌else◌, length-set,
  length-replicate, inl, inr,
}
use whiterun_music_bot.Media.Track.{Track}
use whiterun_music_bot.Media.Errors.{Err}
use whiterun_music_bot.Player.State.{CollectionJob, CollectionProgress, Search}
use whiterun_music_bot.Player.Jobs.{discard, release, wake, cancel_job, stop_searches}
use whiterun_music_bot.Player.Resolve.{set_search}
use whiterun_music_bot.Player.Collection.{Resolution, new_job, record_job, count_result, unwant}

-- How many positions were counted.
unfoldable pub count_true : List Bool → ℕ
count_true [] = 0
count_true (b ∷ bs) = (if b then 1 else 0) + count_true bs

pub record Accounted (j : CollectionJob) : Type 0 where
  pub sum : j.progress.resolved + j.progress.failed + j.progress.skipped ≡ count_true j.recorded
  pub bounded : count_true j.recorded ≤ j.progress.total
  pub sized : length j.recorded ≡ j.progress.total
  pub uncertain : j.progress.uncertain ≤ j.progress.failed

-- What the queue's commands, the coordinator and the searches do to a job.
pub data JobEvent : Type 0 where
  records : Resolution → JobEvent
  discards releases drops : ℕ → JobEvent
  searches : ℕ → Search → JobEvent
  wakes cancels stops_searches : JobEvent

unfoldable pub job_step : JobEvent → CollectionJob → CollectionJob
job_step (records r) j = record_job r j
job_step (discards i) j = discard i j
job_step (releases i) j = release i j
job_step (drops i) j = unwant i j
job_step (searches i s) j = set_search i s j
job_step wakes j = wake j
job_step cancels j = cancel_job j
job_step stops_searches j = stop_searches j

unfoldable pub job_run : List JobEvent → CollectionJob → CollectionJob
job_run [] j = j
job_run (e ∷ es) j = job_run es (job_step e j)

count_true-length : (bs : List Bool) → count_true bs ≤ length bs
unfolding count_true
count_true-length [] = omega arith
count_true-length (true ∷ bs) = omega (arith, count_true-length bs)
count_true-length (false ∷ bs) = omega (arith, count_true-length bs)

count_true-replicate : (n : ℕ) → count_true (replicate n false) ≡ 0
unfolding count_true
count_true-replicate zero = refl
count_true-replicate (suc n) = omega (arith, count_true-replicate n)

count_true-set :
    (bs : List Bool) (i : ℕ)
    → i < length bs
    → get_or bs i false ≡ false
    → count_true (set bs i true) ≡ count_true bs + 1
unfolding count_true
count_true-set [] i l h = elim l [ ]
count_true-set (b ∷ bs) zero l h = ground (arith, h)
count_true-set (b ∷ bs) (suc i) l h = ground (arith, count_true-set bs i, l, h)

count_result-sum :
    (lost : Bool) (err : Option Err) (c : CollectionProgress)
    → ((count_result lost err c).resolved
          + (count_result lost err c).failed
          + (count_result lost err c).skipped
        ≡ c.resolved + c.failed + c.skipped + 1)
      × ((count_result lost err c).total ≡ c.total)
      × (c.uncertain ≤ c.failed
          → (count_result lost err c).uncertain ≤ (count_result lost err c).failed)
unfolding count_result
count_result-sum true err c = ground arith
count_result-sum false none c = ground arith
count_result-sum false (some e) c = ground arith

record_job-Accounted :
    (r : Resolution) (j : CollectionJob)
    → r.index < length j.recorded
    → Accounted j
    → Accounted (record_job r j)
unfolding record_job
record_job-Accounted r j l a = elim (Bool-cases (get_or j.recorded r.index false)) [
  | inl again ↦ rw (again, record_job) a
  | inr fresh ↦
      let lost = r.skipped || (not (get_or j.wanted r.index false) || j.canceled) in
      let (sum, total, uncertain) = count_result-sum lost r.err j.progress in
      let grown = count_true-set j.recorded r.index l fresh in
      let size = length-set j.recorded r.index true in
      rw (fresh, record_job)
        (record {
          sum = omega (arith, a.sum, sum, grown);
          bounded =
              omega (arith, a.sized, total, size, count_true-length (set j.recorded r.index true));
          sized = omega (arith, a.sized, total, size);
          uncertain = uncertain a.uncertain;
        })
]

-- A result is one of the job's positions, as each comes from the coordinator's window.
abbrev pub IsInRange : ℕ → JobEvent → Type 0
IsInRange n (records r) = r.index < n
IsInRange n _ = Unit {0}

-- All the results are.
abbrev pub AllInRange : ℕ → List JobEvent → Type 0
AllInRange n [] = Unit {0}
AllInRange n (e ∷ es) = IsInRange n e × AllInRange n es

job_step-recorded :
    (e : JobEvent) (j : CollectionJob) → length (job_step e j).recorded ≡ length j.recorded
unfolding job_step record_job discard
job_step-recorded (records r) j = ground (arith, length-set j.recorded r.index true)
job_step-recorded (discards i) j = refl
job_step-recorded (releases i) j = refl
job_step-recorded (drops i) j = refl
job_step-recorded (searches i s) j = refl
job_step-recorded wakes j = refl
job_step-recorded cancels j = refl
job_step-recorded stops_searches j = refl

job_step-Accounted :
    (e : JobEvent) (j : CollectionJob)
    → IsInRange (length j.recorded) e
    → Accounted j
    → Accounted (job_step e j)
unfolding job_step discard
job_step-Accounted (records r) j l a = record_job-Accounted r j l a
job_step-Accounted (discards i) j l a = ground (arith, a)
job_step-Accounted (releases i) j l a = ground (arith, a)
job_step-Accounted (drops i) j l a = ground (arith, a)
job_step-Accounted (searches i s) j l a = ground (arith, a)
job_step-Accounted wakes j l a = ground (arith, a)
job_step-Accounted cancels j l a = ground (arith, a)
job_step-Accounted stops_searches j l a = ground (arith, a)

job_run-Accounted :
    (es : List JobEvent) (j : CollectionJob)
    → AllInRange (length j.recorded) es
    → Accounted j
    → Accounted (job_run es j)
unfolding job_run
job_run-Accounted [] j l a = a
job_run-Accounted (e ∷ es) j l a =
    job_run-Accounted es (job_step e j) (rw (job_step-recorded e j) l.1)
      (job_step-Accounted e j l.0 a)

new_job-Accounted : (id skipped : ℕ) (ts : List Track) → Accounted (new_job id skipped ts)
unfolding new_job
new_job-Accounted id skipped ts =
    ground (arith, count_true-replicate (length ts), length-replicate (length ts) false)

-- Whatever the queue's commands, the searches and the coordinator do to a collection's job after its
-- start, in any order, each of its positions is counted at most once: as resolved, failed or skipped.
-- The three counts add up to the number of counted positions and never exceed the collection's
-- total, and no more matches are uncertain than failed.
pub progress-Accounted :
    (id skipped : ℕ) (ts : List Track) (es : List JobEvent)
    → AllInRange (length ts) es
    → Accounted (job_run es (new_job id skipped ts))
progress-Accounted id skipped ts es l =
    job_run-Accounted es (new_job id skipped ts)
      (unfold new_job in rw (length-replicate (length ts) false) l)
      (new_job-Accounted id skipped ts)
