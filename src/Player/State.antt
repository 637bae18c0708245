-- ===== src/Player/State.antt =====
-- internal/player/player.go, internal/player/collection.go and internal/player/durable.go: the data
-- of one guild's player. Log fields, telemetry times and the notification callbacks are left out.
use whiterun_music_bot.Base.{ℕ, ◌+◌, Bool, false, Option, none, some, List, [], String, inc64}
use whiterun_music_bot.Media.Track.{Track}
use whiterun_music_bot.Media.Admission.{Tag, blank}

-- A reserved position stays `pending` until its collection has resolved it. `job_id` 0 is no job.
pub record QueueEntry : Type 0 where
  pub track : Track
  pub pending : Bool
  pub job_id : ℕ
  pub position : ℕ

abbrev pub ready_entry : Track → QueueEntry
ready_entry t = record { track = t; pending = false; job_id = 0; position = 0 }

pub record CollectionProgress : Type 0 where
  pub uncertain : ℕ
  pub metadata_skipped : ℕ
  pub id : ℕ
  pub total : ℕ
  pub resolved : ℕ
  pub failed : ℕ
  pub skipped : ℕ

-- `searches[i]`: nil, the cancel function of a search, or one that has been called.
pub data Search : Type 0 where
  idle running stopped : Search

-- `canceled` is whether the job's context has ended, `woken` whether its wake channel is full.
pub record CollectionJob : Type 0 where
  pub metadata : List Track
  pub wanted : List Bool
  pub searches : List Search
  pub recorded : List Bool
  pub canceled : Bool
  pub woken : Bool
  pub progress : CollectionProgress

pub record DurableState : Type 0 where
  pub loop : String
  pub autoplay : Bool
  pub current : Option Track
  pub current_started : Bool
  pub queue : List Track
  pub history : List Track

-- One guild's rows of the database, and whether each coming write fails (none left: it succeeds).
pub record Disk : Type 0 where
  pub saved : DurableState
  pub plays : List Track
  pub faults : List Bool

-- The texts that persistenceError takes; `clean` is "".
pub data PersistenceError : Type 0 where
  clean unsaved delayed history_unsaved : PersistenceError

-- The fields store, persistenceError, retryingPersistence and checkpointDelayed of GuildPlayer.
pub record Persistence : Type 0 where
  pub store : Option Disk
  pub error : PersistenceError
  pub retrying : Bool
  pub checkpoint_delayed : Bool

-- Why the context of a playback attempt was ended first.
pub data CancelCause : Type 0 where
  on_request voice_lost : CancelCause

-- The attempt that `run` is playing: its track as selected, and what its context was canceled by.
pub record Attempt : Type 0 where
  pub track : Track
  pub sequence : ℕ
  pub cause : Option CancelCause

pub record VoiceCircuit : Type 0 where
  pub blocked : Bool
  pub incident : Bool
  pub incident_sequence : ℕ
  pub attempts : ℕ
  pub notice : Bool
  pub epoch : ℕ
  pub recovering : Bool

-- The provider fields of GuildPlayer; `changes` counts broadcasts on providerChanged.
pub record ProviderLatch : Type 0 where
  pub blocked : Bool
  pub global : Bool
  pub reason : String
  pub incident : Tag
  pub notice : Bool
  pub last_notice : Tag
  pub probe : Bool
  pub retries : ℕ
  pub retry_at : ℕ
  pub generation : ℕ
  pub changes : ℕ

-- `canceled` is whether the player's context has ended; `voice` names the attached transport;
-- `pause` is the current track's gate, with whether it is closed.
pub record GuildPlayer : Type 0 where
  pub canceled : Bool
  pub voice : Option ℕ
  pub generation : ℕ
  pub queue_version : ℕ
  pub queue : List QueueEntry
  pub current : Option Track
  pub attempt : Option Attempt
  pub history : List Track
  pub loop : String
  pub autoplay : Bool
  pub halted : Bool
  pub failures : ℕ
  pub sequence : ℕ
  pub started_sequence : ℕ
  pub pause : Option Bool
  pub recovery_paused : Bool
  pub confirmed_offset : ℕ
  pub checkpoint_offset : ℕ
  pub network_attempts : ℕ
  pub retry_at : ℕ
  pub prefetch_horizon : ℕ
  pub voice_circuit : VoiceCircuit
  pub provider : ProviderLatch
  pub playback_permit : Tag
  pub jobs : List CollectionJob
  pub next_job : ℕ
  pub completed_imports : List CollectionProgress
  pub persistence : Persistence
  pub woken : Bool

abbrev pub max_queue_tracks : ℕ
max_queue_tracks = 1000

abbrev pub max_skip_tracks : ℕ
max_skip_tracks = max_queue_tracks + 1

-- New.
unfoldable pub new : GuildPlayer
new = record {
  canceled = false;
  voice = none;
  generation = 0;
  queue_version = 0;
  queue = [];
  current = none;
  attempt = none;
  history = [];
  loop = "";
  autoplay = false;
  halted = false;
  failures = 0;
  sequence = 0;
  started_sequence = 0;
  pause = none;
  recovery_paused = false;
  confirmed_offset = 0;
  checkpoint_offset = 0;
  network_attempts = 0;
  retry_at = 0;
  prefetch_horizon = 0;
  voice_circuit = record {
    blocked = false;
    incident = false;
    incident_sequence = 0;
    attempts = 0;
    notice = false;
    epoch = 0;
    recovering = false;
  };
  provider = record {
    blocked = false;
    global = false;
    reason = "";
    incident = blank;
    notice = false;
    last_notice = blank;
    probe = false;
    retries = 0;
    retry_at = 0;
    generation = 0;
    changes = 0;
  };
  playback_permit = blank;
  jobs = [];
  next_job = 0;
  completed_imports = [];
  persistence = record {
    store = none;
    error = clean;
    retrying = false;
    checkpoint_delayed = false;
  };
  woken = false;
}

-- Why a command is refused.
pub data CommandError : Type 0 where
  shutting_down already_summoned stale_ticket collection_too_long no_tracks : CommandError
  bad_position queue_empty queue_full not_playing no_previous bad_skip_count : CommandError
  bad_loop_mode bad_timestamp past_the_end seek_unavailable budget_exhausted : CommandError
  bad_horizon configured_late : CommandError
  -- Not an error value: the method panics on an index out of range.
  panicked : CommandError

-- A command's new state and its error.
abbrev pub Outcome : Type 0
Outcome = GuildPlayer × Option CommandError

-- mutationLocked.
abbrev pub mutation : GuildPlayer → GuildPlayer
mutation p = record p { queue_version = inc64 p.queue_version }

-- pauseGate.paused, of a gate that may be nil.
abbrev pub is_paused : Option Bool → Bool
is_paused none = false
is_paused (some closed) = closed
