-- ===== src/Player/System.antt =====
-- The player as a transition system: a player is made and configured as getGuild of
-- internal/discord/bot.go does, from its database where there is one, and from then on every section
-- of internal/player that changes the modelled state under the mutex is an event, in whatever order
-- goroutines take the lock. What the shared gate or the clock decides is part of the event.
pub mod Bounds
pub mod Commands
pub mod Playback
pub mod Jobs
pub mod Capacity
use whiterun_music_bot.Base.{ℕ, Bool, Option, none, some, List, [], ◌∷◌, String}
use whiterun_music_bot.Media.Track.{Track}
use whiterun_music_bot.Media.Errors.{Err}
use whiterun_music_bot.Media.Admission.{Tag, ProviderAdmission, ProviderStatus}
use whiterun_music_bot.Player.State.{GuildPlayer, Attempt, Disk, new}
use whiterun_music_bot.Player.Durable.{retry_persistence, end_retry, configure_store}
use whiterun_music_bot.Player.Provider.{
  block_provider, finish_provider, enter_shared, adopt_permit, wait_latch, announce_provider,
  configure_youtube,
}
use whiterun_music_bot.Player.Seek.{seek}
use whiterun_music_bot.Player.Voice.{
  suspend_voice, begin_recovery, start_attempt, end_attempt, confirm_frame,
}
use whiterun_music_bot.Player.Queue.{
  remove, move, shuffle, jump, replay, set_loop, set_autoplay, previous,
}
use whiterun_music_bot.Player.Pause.{set_paused}
use whiterun_music_bot.Player.Commands.{attach, enqueue_many, stop, leave, close, clear, skip_n}
use whiterun_music_bot.Player.Start.{announce_start, set_metadata}
use whiterun_music_bot.Player.Scheduler.{run_round}
use whiterun_music_bot.Player.Finish.{attempt_of, finish_attempt}
use whiterun_music_bot.Player.Collection.{
  Resolution, begin_collection, commit, record_result, end_job,
}
use whiterun_music_bot.Player.Resolve.{begin_search, end_search}

pub data Event : Type 0 where
  attaches : ℕ → Event
  enqueues : List Track → ℕ → Event
  begins : Bool → Bool → List Track → ℕ → ℕ → Event
  stops leaves closes clears : Event
  skips : ℕ → Event
  removes : ℕ → Event
  moves : ℕ → ℕ → Event
  shuffles : (ℕ → List (ℕ × ℕ)) → Event
  jumps : ℕ → Event
  replays : Event
  previouses : Event
  sets_loop : String → Event
  sets_autoplay : Bool → Event
  pauses : ℕ → Option ProviderStatus → Bool → Event
  suspends : Event
  blocks : ℕ → ProviderStatus → String → Event
  finishes_trial : ℕ → Option Err → Tag → Option ProviderAdmission → Event
  rounds : ℕ → Bool → Tag → Option ProviderAdmission → Event
  gets_metadata : Bool → ℕ → Track → Event
  starts : Bool → ℕ → Event
  sends : ℕ → Bool → ℕ → Option ProviderAdmission → Event
  ends : ℕ → ℕ → Option Err → Tag → Option ProviderAdmission → Event
  recovers : Event
  tries_voice : Bool → ℕ → ℕ → Event
  tried_voice : Bool → ℕ → Option ℕ → Event
  retries_save retry_ends : Event
  searches : ℕ → ℕ → Bool → ℕ → Tag → Option ProviderAdmission → Event
  searched :
      ℕ → ℕ → Bool → ℕ → Tag → ℕ → Track → Track → Option Err → Option ProviderAdmission → Event
  records : ℕ → Resolution → Event
  commits : ℕ → Bool → List Resolution → Event
  ends_job : ℕ → Event
  configures_youtube : ℕ → ℕ → Event
  seeks : List ℕ → Event
  enters_wait : ℕ → ProviderStatus → Event
  adopts : Tag → ProviderStatus → Event
  waits_latch : ℕ → Bool → Event
  announces_provider : Event

-- What getGuild gives to a guild: a new player, with its horizon, and with its saved state where the
-- process has a database.
unfoldable pub guild_player : ℕ → ℕ → Option Disk → GuildPlayer
unfolding new configure_youtube configure_store
guild_player longest horizon none = (configure_youtube longest horizon new).0
guild_player longest horizon (some d) =
    (configure_store d (configure_youtube longest horizon new).0).0

-- The one scheduler goroutine plays one attempt at a time: it selects only between attempts.
abbrev pub round :
    ℕ → Bool → Tag → Option ProviderAdmission → Option Attempt → GuildPlayer → GuildPlayer
round now local permit g none p = (run_round now local permit g p).0
round now local permit g (some a) p = p

-- An attempt that comes back, if one is in flight.
abbrev pub ending :
    ℕ → ℕ → Option Err → Tag → Option ProviderAdmission → Option Attempt → GuildPlayer → GuildPlayer
ending now jitter err permit g none p = p
ending now jitter err permit g (some a) p =
    (finish_attempt now jitter (attempt_of err permit p a) g p).0

abbrev pub begun : Option (GuildPlayer × ℕ) → GuildPlayer → GuildPlayer
begun none p = p
begun (some (q, epoch)) p = q

abbrev pub tried : Bool → ℕ → ℕ → GuildPlayer → GuildPlayer
tried done epoch jitter p = elim (start_attempt done epoch jitter p.voice_circuit) [
  | none ↦ p
  | some (c, delay) ↦ record p { voice_circuit = c }
]

unfoldable pub step : Event → GuildPlayer → GuildPlayer
step (attaches v) p = (attach v p).0
step (enqueues tracks ticket) p = (enqueue_many tracks ticket p).0
step (begins done matcher tracks skipped ticket) p =
    (begin_collection done matcher tracks skipped ticket p).0
step stops p = stop p
step leaves p = leave p
step closes p = close p
step clears p = (clear p).0
step (skips count) p = (skip_n count p).0
step (removes position) p = (remove position p).0
step (moves from to) p = (move from to p).0
step (shuffles algorithm) p = (shuffle algorithm p).0
step (jumps position) p = (jump position p).0
step replays p = (replay p).0
step previouses p = (previous p).0
step (sets_loop mode) p = (set_loop mode p).0
step (sets_autoplay enabled) p = set_autoplay enabled p
step (pauses now shared paused) p = (set_paused now shared paused p).0
step suspends p = suspend_voice p
step (blocks now shared reason) p = block_provider now shared reason p
step (finishes_trial now err permit g) p = (finish_provider now err permit g p).0
step (rounds now local permit g) p = round now local permit g p.attempt p
step (gets_metadata done sequence t) p = set_metadata done sequence t p
step (starts done sequence) p = announce_start done sequence p
step (sends now done sequence g) p = (confirm_frame now done sequence g p).0
step (ends now jitter err permit g) p = ending now jitter err permit g p.attempt p
step recovers p = begun (begin_recovery p) p
step (tries_voice done epoch jitter) p = tried done epoch jitter p
step (tried_voice done epoch replacement) p = (end_attempt done epoch replacement p).0
step retries_save p = (retry_persistence p).0
step retry_ends p = end_retry p
step (searches now id ended index probe g) p = (begin_search now id ended index probe g p).0
step (searched now id ended index probe generation asked found err g) p =
    (end_search now id ended index probe generation asked found err g p).0
step (records id r) p = record_result id r p
step (commits id ended results) p = (commit id ended results p).0
step (ends_job id) p = end_job id p
step (configures_youtube longest horizon) p = (configure_youtube longest horizon p).0
step (seeks raw) p = (seek raw p).0
step (enters_wait now shared) p = (enter_shared now shared p).0
step (adopts permit status) p = adopt_permit permit status p
step (waits_latch now done) p = record p { provider = (wait_latch now done p.provider).0 }
step announces_provider p = record p { provider = (announce_provider p.provider).0 }

unfoldable pub run : List Event → GuildPlayer → GuildPlayer
run [] p = p
run (e ∷ es) p = run es (step e p)
