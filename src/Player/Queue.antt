-- ===== src/Player/Queue.antt =====
-- internal/player/queue.go and internal/player/previous.go: the commands that reorder the queue. A
-- position is the command's one-based number.
pub mod Laws
use whiterun_music_bot.Base.{
  ℕ, ◌+◌, ◌-◌, Bool, false, not, ◌&&◌, ◌||◌, Option, none, some, List, [], ◌∷◌, ◌++◌, String,
  length, take, drop, get_elem?, set, ltb, leb, ◌==◌, if◌then◌else◌, is_some, str_eq, occupancy,
}
use whiterun_music_bot.Media.Track.{Track}
use whiterun_music_bot.Player.State.{
  GuildPlayer, QueueEntry, ready_entry, CommandError, Outcome, mutation, max_queue_tracks,
}
use whiterun_music_bot.Player.Jobs.{signal, discard_entry, discard_all, discard_entries}
use whiterun_music_bot.Player.Durable.{persist}
use whiterun_music_bot.Player.Voice.{cancel_track}

-- append(q[:i], q[i+1:]...).
unfoldable pub remove_at : ℕ → List QueueEntry → List QueueEntry
remove_at i q = take i q ++ drop (i + 1) q

-- Remove.
unfoldable pub remove : ℕ → GuildPlayer → Outcome
unfolding remove_at signal persist
remove position p = elim (get_elem? p.queue (position - 1)) [
  | none ↦ (p, some CommandError.bad_position)
  | some entry ↦
      let discarded = mutation (record p { jobs = discard_entry entry p.jobs }) in
      if position == 0
      then (p, some CommandError.bad_position)
      else (signal (persist (record discarded { queue = remove_at (position - 1) p.queue })), none)
]

-- copy(q[lo:], part): the part overwrites the entries from `lo` on.
unfoldable pub copy_at : ℕ → List QueueEntry → List QueueEntry → List QueueEntry
copy_at lo part q = take lo q ++ (part ++ drop (lo + length part) q)

-- q[lo:hi].
abbrev pub slice : ℕ → ℕ → List QueueEntry → List QueueEntry
slice lo hi q = take (hi - lo) (drop lo q)

-- The shift of Move from index i to index j, and the entry put back at j.
unfoldable pub move_entry : ℕ → ℕ → QueueEntry → List QueueEntry → List QueueEntry
unfolding copy_at
move_entry i j entry q =
    set (if ltb i j then copy_at i (slice (i + 1) (j + 1) q) q else copy_at (j + 1) (slice j i q) q)
      j entry

-- Move.
unfoldable pub move : ℕ → ℕ → GuildPlayer → Outcome
unfolding move_entry signal persist
move from to p = elim (get_elem? p.queue (from - 1)) [
  | none ↦ (p, some CommandError.bad_position)
  | some entry ↦
      let moved = record p { queue = move_entry (from - 1) (to - 1) entry p.queue } in
      if from == 0 || (to == 0 || ltb (length p.queue) to)
      then (p, some CommandError.bad_position)
      else (signal (persist (mutation moved)), none)
]

-- One `swap` call that the shuffling algorithm makes; rand.Shuffle stays within the list.
unfoldable pub swap : ℕ → ℕ → List QueueEntry → List QueueEntry
swap i j q = elim (get_elem? q i) [
  | none ↦ q
  | some x ↦ elim (get_elem? q j) [ none ↦ q | some y ↦ set (set q i y) j x ]
]

unfoldable pub swaps : List (ℕ × ℕ) → List QueueEntry → List QueueEntry
unfolding swap
swaps [] q = q
swaps ((i, j) ∷ rest) q = swaps rest (swap i j q)

-- shuffle, for the swaps that the given algorithm makes on a list of this length.
unfoldable pub shuffle : (ℕ → List (ℕ × ℕ)) → GuildPlayer → Outcome
unfolding swaps signal persist
shuffle algorithm p = if length p.queue == 0 then (p, some CommandError.queue_empty) else (
  signal (persist (mutation (record p { queue = swaps (algorithm (length p.queue)) p.queue }))),
  none,
)

-- Jump.
unfoldable pub jump : ℕ → GuildPlayer → Outcome
unfolding cancel_track discard_all signal persist
jump position p =
    let canceled = cancel_track (mutation p) in
    let discarded = discard_entries (take (position - 1) p.queue) canceled in
    if position == 0 || ltb (length p.queue) position
    then (p, some CommandError.bad_position)
    else (signal (persist (record discarded { queue = drop (position - 1) p.queue })), none)

-- Replay of a current track.
unfoldable pub replay_track : Track → GuildPlayer → Outcome
unfolding cancel_track signal persist
replay_track t p =
    if leb max_queue_tracks (length p.queue) then (p, some CommandError.queue_full) else (
      signal (
          persist (record (cancel_track p) {
            queue = ready_entry (record t { resume_offset = 0 }) ∷ p.queue;
          })),
      none,
    )

-- Replay.
unfoldable pub replay : GuildPlayer → Outcome
unfolding replay_track
replay p = elim p.current [ none ↦ (p, some CommandError.not_playing) | some t ↦ replay_track t p ]

-- SetLoop.
unfoldable pub set_loop : String → GuildPlayer → Outcome
unfolding persist
set_loop mode p =
    if str_eq mode "off" || (str_eq mode "track" || str_eq mode "queue")
    then (persist (record p { loop = mode }), none)
    else (p, some CommandError.bad_loop_mode)

-- SetAutoplay.
unfoldable pub set_autoplay : Bool → GuildPlayer → GuildPlayer
unfolding persist
set_autoplay enabled p = persist (record p { autoplay = enabled })

abbrev pub current_prefix : Option Track → List QueueEntry
current_prefix none = []
current_prefix (some t) = ready_entry t ∷ []

-- The current track has started, so that the history's last entry is taken to be its own.
abbrev pub is_started : GuildPlayer → Bool
is_started p = is_some p.current && p.started_sequence == p.sequence

-- `n`: how many of the history's entries come before the current track. Go's `n` is -1 where this
-- stops at 0 because a track has started and the history is empty (`is_overrun`).
abbrev pub past : GuildPlayer → ℕ
past p = if is_started p then length p.history - 1 else length p.history

abbrev pub is_overrun : GuildPlayer → Bool
is_overrun p = is_started p && length p.history == 0

-- Previous on success: the recording before the current one, and the current one after it.
unfoldable pub previous_to : Track → GuildPlayer → GuildPlayer
unfolding cancel_track signal
previous_to t p =
    signal (record (cancel_track (record p { history = take (past p - 1) p.history })) {
      queue = (ready_entry (record t { resume_offset = 0 }) ∷ current_prefix p.current) ++ p.queue;
      halted = false;
      failures = 0;
    })

-- Previous before its deferred save.
unfoldable pub previous_unsaved : GuildPlayer → Outcome
unfolding previous_to
previous_unsaved p =
    if (past p == 0 && not (is_overrun p)) || (p.canceled || not (is_some p.voice))
    then (p, some CommandError.no_previous)
    else if ltb max_queue_tracks (length p.queue + (1 + occupancy p.current))
    then (p, some CommandError.queue_full)
    else elim (get_elem? p.history (past p - 1)) [
      | none ↦ (p, some CommandError.panicked)
      | some t ↦ (previous_to t p, none)
    ]

-- Previous: the save is deferred, so that it runs on every path, a panic included.
unfoldable pub previous : GuildPlayer → Outcome
unfolding previous_unsaved persist
previous p = let (q, err) = previous_unsaved p in (persist q, err)
