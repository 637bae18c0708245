-- ===== src/Player/Commands.antt =====
-- internal/player/player.go: the commands that attach a voice, add to the queue and empty it.
use whiterun_music_bot.Base.{
  ℕ, ◌+◌, ◌-◌, Bool, true, false, not, ◌||◌, Option, none, some, List, [], ◌∷◌, ◌++◌, length, take,
  drop, ltb, ◌==◌, if◌then◌else◌, is_some, inc64, min, occupancy,
}
use whiterun_music_bot.Media.Track.{Track}
use whiterun_music_bot.Player.State.{
  GuildPlayer, QueueEntry, CommandError, Outcome, mutation, max_queue_tracks, max_skip_tracks,
}
use whiterun_music_bot.Player.Jobs.{signal, discard_all, discard_entries, cancel_jobs}
use whiterun_music_bot.Player.Durable.{persist}
use whiterun_music_bot.Player.Provider.{reset_provider}
use whiterun_music_bot.Player.Voice.{cancel_track, cancel_voice_recovery}

abbrev pub advance_generation : GuildPlayer → GuildPlayer
advance_generation p = mutation (record p { generation = inc64 p.generation })

-- Attach.
unfoldable pub attach : ℕ → GuildPlayer → Outcome
unfolding signal
attach v p =
    if p.canceled
    then (p, some CommandError.shutting_down)
    else if is_some p.voice
    then (p, some CommandError.already_summoned)
    else (
      signal (
          advance_generation (record p {
            voice = some v;
            voice_circuit = record p.voice_circuit {
              blocked = false;
              incident = false;
              notice = false;
              attempts = 0;
            };
          })),
      none,
    )

-- Ticket.
abbrev pub ticket : GuildPlayer → ℕ
ticket p = p.generation

-- A track with no position of its own is numbered within its request.
abbrev pub numbered : ℕ → ℕ → Track → Track
numbered i total t = if t.position == 0 then record t { position = i + 1; total = total } else t

abbrev pub queued : Track → QueueEntry
queued t = record { track = t; pending = false; job_id = 0; position = t.position - 1 }

unfoldable pub entries_from : ℕ → ℕ → List Track → List QueueEntry
entries_from i total [] = []
entries_from i total (t ∷ ts) = queued (numbered i total t) ∷ entries_from (i + 1) total ts

-- The test with which every request that searched before it was queued begins.
abbrev pub is_stale : ℕ → GuildPlayer → Bool
is_stale ticket p = p.canceled || (not (is_some p.voice) || not (ticket == p.generation))

-- EnqueueMany; its deferred save runs on every path.
unfoldable pub enqueue_many : List Track → ℕ → GuildPlayer → Outcome
unfolding entries_from signal persist
enqueue_many tracks ticket p =
    if is_stale ticket p
    then (persist p, some CommandError.stale_ticket)
    else if ltb max_queue_tracks (length tracks + length p.queue)
    then (persist p, some CommandError.collection_too_long)
    else (
      persist (
          signal (
            mutation (record p {
              halted = false;
              failures = 0;
              queue = p.queue ++ entries_from 0 (length tracks) tracks;
            }))),
      none,
    )

-- What Stop and Leave reset before the track is canceled.
unfoldable pub reset_session : GuildPlayer → GuildPlayer
unfolding cancel_jobs cancel_voice_recovery reset_provider
reset_session p =
    advance_generation (record (reset_provider (cancel_voice_recovery (cancel_jobs p))) {
      queue = [];
      loop = "off";
      halted = false;
      failures = 0;
      network_attempts = 0;
      recovery_paused = false;
      retry_at = 0;
    })

-- Stop.
unfoldable pub stop : GuildPlayer → GuildPlayer
unfolding reset_session cancel_track signal persist
stop p = persist (signal (mutation (cancel_track (reset_session p))))

-- Leave up to its waits: it detaches first; then it waits for the attempt's teardown and closes the
-- transport that it detached.
unfoldable pub leave : GuildPlayer → GuildPlayer
unfolding reset_session cancel_track signal persist
leave p = persist (signal (mutation (cancel_track (reset_session (record p { voice = none })))))

-- Close up to its waits: the last state is saved, and the store is let go before the queue is.
unfoldable pub close : GuildPlayer → GuildPlayer
unfolding leave persist
close p =
    let saved = persist p in
    leave
      (record saved { persistence = record saved.persistence { store = none }; canceled = true })

-- Clear; its deferred save comes last.
unfoldable pub clear : GuildPlayer → GuildPlayer × ℕ
unfolding cancel_jobs signal persist
clear p = (
  persist (record (signal (advance_generation (cancel_jobs p))) {
    queue = [];
    loop = "off";
    halted = false;
    failures = 0;
    network_attempts = 0;
    retry_at = 0;
  }),
  length p.queue,
)

pub record SkipResult : Type 0 where
  pub skipped : ℕ
  pub remaining : ℕ
  pub next : Option Track
  pub next_pending : Bool

abbrev pub next_track : List QueueEntry → Option Track
next_track [] = none
next_track (e ∷ es) = some e.track

abbrev pub next_is_pending : List QueueEntry → Bool
next_is_pending [] = false
next_is_pending (e ∷ es) = e.pending

-- A skip renews the network budget, and lifts the halt that its exhaustion set.
abbrev pub renew_network : GuildPlayer → GuildPlayer
renew_network p =
    if ltb 0 p.network_attempts
    then record p { network_attempts = 0; retry_at = 0; halted = false }
    else p

abbrev pub cancel_current : GuildPlayer → GuildPlayer
cancel_current p = if is_some p.current then cancel_track p else p

abbrev pub no_skip : SkipResult
no_skip = record { skipped = 0; remaining = 0; next = none; next_pending = false }

-- SkipN. A bad count is refused before the save is deferred.
unfoldable pub skip_n : ℕ → GuildPlayer → GuildPlayer × SkipResult × Option CommandError
unfolding cancel_track discard_all signal persist
skip_n count p =
    let dropped = min (count - occupancy p.current) (length p.queue) in
    let rest = drop dropped p.queue in
    let discarded = discard_entries (take dropped p.queue) (cancel_current (renew_network p)) in
    if ltb count 1 || ltb max_skip_tracks count
    then (p, no_skip, some CommandError.bad_skip_count)
    else (
      persist (signal (mutation (record discarded { queue = rest }))),
      record {
        skipped = occupancy p.current + dropped;
        remaining = length rest;
        next = next_track rest;
        next_pending = next_is_pending rest;
      },
      none,
    )
