-- ===== src/Player/System/Capacity.antt =====
-- The bounds hold after any history of events.
use whiterun_music_bot.Base.{
  ℕ, ◌-◌, ◌≤◌, ◌≡◌, sym, Option, none, some, List, [], ◌∷◌, map, length, length-append, length-take,
  length-map, arith,
}
use mathlib.Core.Path.{subst}
use whiterun_music_bot.Player.State.{GuildPlayer, Disk, new, ready_entry}
use whiterun_music_bot.Player.Start.{max_history}
use whiterun_music_bot.Player.Durable.{durable, configure_store, prepend_current}
use whiterun_music_bot.Player.Provider.{configure_youtube}
use whiterun_music_bot.Player.Queue.{set_autoplay}
use whiterun_music_bot.Player.System.{Event, step, run, guild_player}
use whiterun_music_bot.Player.System.Bounds.{
  Inv, Frame-Inv, block_provider-Frame, finish_provider-Frame, enter_shared-Frame,
  adopt_permit-Frame, configure_youtube-Frame, seek-same,
}
use whiterun_music_bot.Player.System.Commands.{
  attach-Inv, enqueue_many-Inv, stop-Inv, leave-Inv, close-Inv, clear-Inv, skip_n-Inv, remove-Inv,
  move-Inv, shuffle-Inv, jump-Inv, replay-Inv, previous-Inv, set_loop-Inv, set_paused-Inv,
}
use whiterun_music_bot.Player.System.Playback.{
  announce_start-Inv, set_metadata-Inv, suspend_voice-Inv, begin_recovery-Inv, start_attempt-Inv,
  end_attempt-Inv, retry_persistence-Inv, confirm_frame-Inv, round-Inv, ending-Inv,
}
use whiterun_music_bot.Player.System.Jobs.{
  begin_collection-Inv, commit-Inv, record_result-Inv, end_job-Inv, begin_search-Inv,
  end_search-Inv,
}

step-Inv : (e : Event) (p : GuildPlayer) → Inv p → Inv (step e p)
unfolding step set_autoplay
step-Inv (Event.attaches v) p i = attach-Inv v p i
step-Inv (Event.enqueues ts ticket) p i = enqueue_many-Inv ts ticket p i
step-Inv (Event.begins done matcher ts skipped ticket) p i =
    begin_collection-Inv done matcher ts skipped ticket p i
step-Inv Event.stops p i = stop-Inv p i
step-Inv Event.leaves p i = leave-Inv p i
step-Inv Event.closes p i = close-Inv p i
step-Inv Event.clears p i = clear-Inv p i
step-Inv (Event.skips count) p i = skip_n-Inv count p i
step-Inv (Event.removes position) p i = remove-Inv position p i
step-Inv (Event.moves from to) p i = move-Inv from to p i
step-Inv (Event.shuffles algorithm) p i = shuffle-Inv algorithm p i
step-Inv (Event.jumps position) p i = jump-Inv position p i
step-Inv Event.replays p i = replay-Inv p i
step-Inv Event.previouses p i = previous-Inv p i
step-Inv (Event.sets_loop mode) p i = set_loop-Inv mode p i
step-Inv (Event.sets_autoplay enabled) p i = ground arith
step-Inv (Event.pauses now shared paused) p i = set_paused-Inv now shared paused p i
step-Inv Event.suspends p i = suspend_voice-Inv p i
step-Inv (Event.blocks now shared reason) p i =
    Frame-Inv p _ (block_provider-Frame now shared reason p) i
step-Inv (Event.finishes_trial now err permit g) p i =
    Frame-Inv p _ (finish_provider-Frame now err permit g p) i
step-Inv (Event.rounds now local permit g) p i = round-Inv now local permit g p i
step-Inv (Event.gets_metadata done sequence t) p i = set_metadata-Inv done sequence t p i
step-Inv (Event.starts done sequence) p i = announce_start-Inv done sequence p i
step-Inv (Event.sends now done sequence g) p i = confirm_frame-Inv now done sequence g p i
step-Inv (Event.ends now jitter err permit g) p i = ending-Inv now jitter err permit g p.attempt p i
step-Inv Event.recovers p i = begin_recovery-Inv p i
step-Inv (Event.tries_voice done epoch jitter) p i = start_attempt-Inv done epoch jitter p i
step-Inv (Event.tried_voice done epoch replacement) p i = end_attempt-Inv done epoch replacement p i
step-Inv Event.retries_save p i = retry_persistence-Inv p i
step-Inv Event.retry_ends p i = ground arith
step-Inv (Event.searches now id ended index probe g) p i =
    begin_search-Inv now id ended index probe g p i
step-Inv (Event.searched now id ended index probe generation asked found err g) p i =
    end_search-Inv now id ended index probe generation asked found err g p i
step-Inv (Event.records id r) p i = record_result-Inv id r p i
step-Inv (Event.commits id ended results) p i = commit-Inv id ended results p i
step-Inv (Event.ends_job id) p i = end_job-Inv id p i
step-Inv (Event.configures_youtube longest horizon) p i =
    Frame-Inv p _ (configure_youtube-Frame longest horizon p) i
step-Inv (Event.seeks raw) p i = subst Inv (sym (seek-same raw p)) i
step-Inv (Event.enters_wait now shared) p i = Frame-Inv p _ (enter_shared-Frame now shared p) i
step-Inv (Event.adopts permit status) p i = Frame-Inv p _ (adopt_permit-Frame permit status p) i
step-Inv (Event.waits_latch now done) p i = record {
  capacity = i.capacity;
  owned = i.owned;
  remembered = i.remembered;
  voice_budget = i.voice_budget;
}
step-Inv Event.announces_provider p i = record {
  capacity = i.capacity;
  owned = i.owned;
  remembered = i.remembered;
  voice_budget = i.voice_budget;
}

pub run-Inv : (es : List Event) (p : GuildPlayer) → Inv p → Inv (run es p)
unfolding run
run-Inv [] p i = i
run-Inv (e ∷ es) p i = run-Inv es (step e p) (step-Inv e p i)

new-Inv : Inv new
unfolding new
new-Inv = ground arith

-- What the database holds of a guild can be taken over: its history is within the bound, as that of
-- every state which a player within its bounds has saved.
abbrev pub IsRestorable : Option Disk → Type 0
IsRestorable none = Unit {0}
IsRestorable (some d) = length d.saved.history ≤ max_history

-- The state that a player within its bounds has saved is restorable.
pub durable-IsRestorable :
    (p : GuildPlayer) (d : Disk) → Inv p → d.saved ≡ durable p → IsRestorable (some d)
unfolding durable
durable-IsRestorable p d i e = rw e i.remembered

configure_store-Inv :
    (d : Disk) (p : GuildPlayer)
    → Inv p
    → p.history ≡ []
    → IsRestorable (some d)
    → Inv (configure_store d p).0
unfolding configure_store
configure_store-Inv d p i e h = ground (
  arith,
  i,
  e,
  h,
  length-take (length d.saved.history - 1) d.saved.history,
  length-append p.queue (map ready_entry (prepend_current d.saved.current d.saved.queue)),
  length-map ready_entry (prepend_current d.saved.current d.saved.queue),
)

guild_player-Inv :
    (longest horizon : ℕ) (store : Option Disk)
    → IsRestorable store
    → Inv (guild_player longest horizon store)
unfolding guild_player
guild_player-Inv longest horizon none h =
    Frame-Inv new _ (configure_youtube-Frame longest horizon new) new-Inv
guild_player-Inv longest horizon (some d) h =
    let f = configure_youtube-Frame longest horizon new in
    configure_store-Inv d (configure_youtube longest horizon new).0 (Frame-Inv new _ f new-Inv)
      f.history h

-- From a player as it is made and configured for a guild, with any database whose history has at
-- most 100 entries or with none, and after any sequence of commands, scheduler rounds, playback
-- endings, resolver commits, provider waits and recovery attempts in any order: the queue and the
-- current track together hold at most 1001 positions, a current track belongs to an attempt in
-- flight, the history has at most 100 entries, and a voice incident has used at most 5 attempts.
pub player_run-Inv :
    (longest horizon : ℕ) (store : Option Disk) (es : List Event)
    → IsRestorable store
    → Inv (run es (guild_player longest horizon store))
player_run-Inv longest horizon store es h =
    run-Inv es (guild_player longest horizon store) (guild_player-Inv longest horizon store h)
