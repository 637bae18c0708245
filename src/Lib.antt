-- ===== src/Lib.antt =====
-- Whiterun music bot: the player of one Discord guild, the gate and the cache that all players of the
-- process share for YouTube work, the matching of recordings, the limit on the database's files, the
-- store of log records, and the watch over the voice channels.
--
-- The program. internal/discord turns commands into calls on a GuildPlayer (internal/player), which
-- owns the queue, the current track, the history, and one scheduler goroutine that plays one attempt
-- at a time. Collections (playlists, albums) reserve queue positions, and a coordinator per
-- collection resolves them through internal/media. Each player saves its state to SQLite
-- (internal/storage) under its mutex. Failures suspend: the voice circuit, the player's provider
-- latch and the process-wide provider gate (internal/media/provider_admission.go) each keep the
-- logical position and retry within a budget.
--
-- How it is modelled. A method that holds a mutex is a function on the state, and a goroutine is the
-- sequence of its sections under the mutex. Player/System.antt makes a player as getGuild of
-- internal/discord/bot.go does, with ConfigureYouTube and, where there is a database, ConfigureStore;
-- its events are the sections of internal/player that change the modelled state from then on, which may
-- come in any order. Time, random jitter, whether a context has ended, a permit that the gate
-- gave, what a transport's Recover and the play function returned, and the swaps that rand.Shuffle
-- makes are arguments. A write to the database is a transaction whose failures are a script in the
-- state. The shared gate is passed in and out. A wait is one round, whose result says what it waits
-- for, so that only three loops need fuel: the recovery loop of the voice, the Ogg reader, whose
-- pages each take 27 bytes of its input at least, so that the length of the input is enough, and the
-- rounds of a coordinator, each of which looks at the shared state at least once, so that as many
-- rounds as there are looks before its job is canceled are enough; a job that nobody cancels may wait
-- for its window for ever. A time.Duration is its nanoseconds, never negative here; a uint64 counter
-- wraps. A candidate's duration, a float of seconds in the source, is in milliseconds, and the
-- fractions of a match policy are in thousandths. An incident's text is a tag of what Sprintf builds
-- it from. A Go panic is a value of the result type.
--
-- The files.
--   Base: Boolean tests on the native numbers, lists by index, and their lemmas.
--   Media/Track: internal/media/resolver.go, the track's fields that are read.
--   Media/Errors, Media/Errors/Provider: the errors and what is blamed for them
--     (internal/media/extraction_error.go, internal/player/lifecycle.go, isVoiceFailure of
--     internal/player/voice_recovery.go, GlobalProviderFailure).
--   Media/Admission: internal/media/provider_admission.go. Invariant has its calls as steps; Budget
--     and Spacing are about the trials and the starts.
--   Media/Cache: internal/media/cache.go. Laws and Refinement are about the bounded map, Flights about
--     the searches that callers share.
--   Media/Ranking: internal/media/ranking.go: tokenWeight, with Edits, Rows and Weight about it; Music
--     (words, musicShape, IsMusic), Score (relevance to Select) and Best, what Select chooses.
--   Media/Matching: internal/media/fidelity.go and deduplicateCandidates of spotify_rank.go; Selecting is
--     selectSpotifyPolicy, Discovery internal/media/spotify_discovery.go, Mapping resolveSpotify. Unique,
--     Reference, Confirmed and Kept are about them.
--   Media/Limiter: the limiter of internal/media/progressive.go; Room is about its slots.
--   Discord/Idle: internal/discord/idle.go, and watchVoice of bot.go. Grace and Health are about it.
--   Player/Ogg: internal/player/ogg.go. Segments and Total are about any stream, Lacing, RoundTrip and
--     Pages about streams that were written as one.
--   Storage/Slots: load and save of internal/storage/physical_linux.go, with the JSON codec and the
--     checksum as parameters; Laws, Crash and Saves are about a save. Storage/Physical: its usage, admission and guard; Calls has the calls of
--     sqlite that are guarded, Alerts the polling of alerts, Limit and Episodes what they promise.
--   Logs: internal/logstore/store.go, its queue and worker. Account, Drain and Run balance its
--     counters, Close is about the end of the worker.
--   Player/State: the structs. Jobs: signal and what commands do to collections.
--   Player/Commands, Queue, Pause: the commands (internal/player/player.go, queue.go, controls.go,
--     previous.go, pause.go).
--   Player/Seek: timestamps and Seek of controls.go.
--   Player/Scheduler, Start, Finish: one round of run, the callbacks of play, and the handling of its
--     result (internal/player/player.go, lifecycle.go, observability.go).
--   Player/Voice: voice_recovery.go, and the confirmed audio of resume.go. Voice/Retry is the loop of
--     recoverVoice on fuel, with what others do between its looks as a parameter: one round for each
--     attempt that is left is enough.
--   Player/Provider: provider_recovery.go. Player/Durable: durable.go over internal/storage/sqlite.go;
--     the worker that repeats a failed save has its budget of three attempts.
--   Player/Collection, Resolve, Horizon: collection.go and horizon.go.
--   Player/Coordinator: the coordinator's rounds in run of collection.go; Run has its first phase and its
--     end. Order, Filled, Complete and Ends are about them. What others do between two of its looks at the
--     shared state is a parameter, and the results of its searches come as inputs.
--   Player/System and below: all of it as one transition system, and its bounds.
--   Player/Durability, Navigation, Recovery, Tickets and the Laws modules: what the parts promise;
--     Collection/Progress has what may happen to one job as events of their own.
--   The Examples modules: concrete states, among them a history of events after which Previous panics.
--
-- Not modelled: logging, metrics, notification callbacks and Timing; the waits of Leave and Close for
-- goroutines; the tables of recordings and the JSON encoding; most fields of a track;
-- rankSpotifyPolicy and sourceClass, which weigh metadata with regular expressions and floats,
-- matchesMetadata, the recording identities and the catalog, the Spotify clients, the processes that
-- fetch and encode audio, the rest of the Discord front end, the SQL of the databases, the FFI of the
-- quota's shim, and the tools. In errors, texts are lower-cased letter by letter: of strings.ToLower
-- only the letters that it takes to ASCII are kept. Ranking has what package unicode says of a rune
-- as a parameter.
pub mod Base
pub mod Media
pub mod Player
pub mod Storage
pub mod Logs
pub mod Discord
