-- ===== src/Player/Coordinator/Run.antt =====
-- internal/player/collection.go (run): the coordinator's first phase, which looks for the first track
-- alone, its rounds, and its end.
use mathlib.Core.Option
use whiterun_music_bot.Base.{
  ℕ, zero, suc, ◌+◌, Bool, true, false, Option, none, some, List, [], ◌∷◌, leb, ◌==◌, if◌then◌else◌,
}
use whiterun_music_bot.Player.State.{CollectionJob, CollectionProgress}
use whiterun_music_bot.Player.Jobs.{find_job}
use whiterun_music_bot.Player.Collection.{Resolution, is_dropped, end_job, window, unresolved}
use whiterun_music_bot.Player.Coordinator.{
  World, CollectionFirst, Coordinator, tick, publish_first, record_at, commit_at, round,
}

-- What a search of the first phase leads to: the same position again, the next one, the end of the
-- job, or the first track.
pub data Verdict : Type 0 where
  again next over found : Verdict

abbrev pub suspension : ℕ → CollectionFirst
suspension total = record {
  suspended = true;
  track = none;
  position = 0;
  total = total;
  skipped = 0;
  failed = false;
}

abbrev pub first_found : ℕ → ℕ → Resolution → CollectionFirst
first_found total i r = record {
  suspended = false;
  track = some r.track;
  position = i + 1;
  total = total;
  skipped = i;
  failed = false;
}

-- One turn of the loop for the first track, at position `i`.
unfoldable pub try_first : World → ℕ → ℕ → ℕ → Resolution → Coordinator → Coordinator × Verdict
unfolding tick record_at commit_at publish_first
try_first w id total i r s =
    let before = tick w s in
    let after = tick w before in
    let done = commit_at w id r (record_at w id r after) in
    if before.ended
    then (before, over)
    else if after.ended
    then (after, over)
    else if r.blocked
    then (publish_first (suspension total) after, again)
    else if done.stopped
    then (done, over)
    else if is_dropped r
    then (done, next)
    else (publish_first (first_found total i r) done, found)

-- How the first phase ends; `unfinished` is a run whose script is over.
pub data FirstTrack : Type 0 where
  missing gone unfinished : FirstTrack
  at_index : ℕ → FirstTrack

-- The loop for the first track, for the results of its searches one by one.
unfoldable pub first_track :
    World → ℕ → ℕ → ℕ → List Resolution → Coordinator → Coordinator × FirstTrack
unfolding try_first
first_track w id total i [] s = (s, if leb total i then missing else unfinished)
first_track w id total i (r ∷ rs) s =
    let (t, v) = try_first w id total i r s in
    let retried = first_track w id total i rs t in
    let moved = first_track w id total (i + 1) rs t in
    if leb total i
    then (s, missing)
    else elim v [ again ↦ retried | next ↦ moved | over ↦ (t, gone) | found ↦ (t, at_index i) ]

abbrev pub failure : Option CollectionProgress → CollectionFirst
failure none = record {
  suspended = false;
  track = none;
  position = 0;
  total = 0;
  skipped = 0;
  failed = true;
}
failure (some c) = record {
  suspended = false;
  track = none;
  position = 0;
  total = c.total;
  skipped = c.failed + c.skipped;
  failed = true;
}

abbrev pub is_empty : List ℕ → Bool
is_empty [] = true
is_empty _ = false

-- The rounds after the first track, at most `fuel` of them; `search` gives a window's results in their
-- order of arrival. None is a run that is not over yet.
unfoldable pub all_rounds :
    World → ℕ → (ℕ → List ℕ → List Resolution) → ℕ → Coordinator → Option Coordinator
unfolding tick round
all_rounds w id search zero s = none
all_rounds w id search (suc fuel) s =
    let t = tick w s in
    let woken = tick w t in
    let r = round w id (window id t.player) (search t.clock (window id t.player)) t in
    let after_wait = all_rounds w id search fuel woken in
    let after_round = all_rounds w id search fuel r in
    if unresolved id t.player.queue == 0
    then some t
    else if is_empty (window id t.player)
    then (if woken.ended then some woken else after_wait)
    else (if r.stopped then some r else after_round)

-- The deferred end, which tells a caller that still waits that there is no first track.
unfoldable pub close_job : World → ℕ → Coordinator → Coordinator
unfolding tick publish_first end_job
close_job w id s =
    let t = tick w s in
    publish_first
      (failure (Option.map (λ (j : CollectionJob). j.progress) (find_job id t.player.jobs)))
      (record t { player = end_job id t.player })

unfoldable pub after_first :
    World
    → ℕ
    → ℕ
    → (ℕ → List ℕ → List Resolution)
    → ℕ
    → Coordinator × FirstTrack
    → Option Coordinator
unfolding all_rounds
after_first w id total search fuel (s, missing) = some s
after_first w id total search fuel (s, gone) = some s
after_first w id total search fuel (s, unfinished) = none
after_first w id total search fuel (s, at_index i) =
    if i + 1 == total then some s else all_rounds w id search fuel s

-- run: the first phase with the results `firsts` of its searches, the rounds, and the end.
unfoldable pub run :
    World
    → ℕ
    → ℕ
    → List Resolution
    → (ℕ → List ℕ → List Resolution)
    → ℕ
    → Coordinator
    → Option Coordinator
unfolding first_track after_first close_job
run w id total firsts search fuel s =
    Option.map (close_job w id)
      (after_first w id total search fuel (first_track w id total 0 firsts s))
