-- ===== src/Player/Durable.antt =====
-- internal/player/durable.go over internal/storage/sqlite.go. A save is one transaction, which
-- replaces the guild's whole state or, when the script says so, fails and changes nothing.
use whiterun_music_bot.Base.{
  ℕ, zero, suc, Bool, true, false, ◌&&◌, ◌||◌, not, Option, none, some, List, [], ◌∷◌, ◌++◌, map,
  length, take, ◌-◌, ltb, leb, ◌==◌, if◌then◌else◌, is_some, ◌+◌, ◌/◌,
}
use whiterun_music_bot.Media.Track.{Track}
use whiterun_music_bot.Player.State.{
  GuildPlayer, DurableState, Disk, Persistence, PersistenceError, clean, unsaved, ready_entry,
  max_queue_tracks, CommandError, Outcome,
}

-- The script's outcome for the next write.
abbrev pub fails : List Bool → Bool
fails [] = false
fails (f ∷ fs) = f

abbrev pub rest_faults : List Bool → List Bool
rest_faults [] = []
rest_faults (f ∷ fs) = fs

abbrev pub record_play : Option Track → List Track → List Track
record_play none plays = plays
record_play (some t) plays = plays ++ t ∷ []

-- saveGuild with its optional play event.
unfoldable pub save_guild : DurableState → Option Track → Disk → Disk
save_guild state play d =
    if fails d.faults
    then record d { faults = rest_faults d.faults }
    else record d { saved = state; plays = record_play play d.plays; faults = rest_faults d.faults }

abbrev pub with_offset : ℕ → Option Track → Option Track
with_offset offset none = none
with_offset offset (some t) = some (record t { resume_offset = offset })

-- durableLocked.
unfoldable pub durable : GuildPlayer → DurableState
durable p = record {
  loop = p.loop;
  autoplay = p.autoplay;
  current = with_offset p.confirmed_offset p.current;
  current_started = is_some p.current && p.started_sequence == p.sequence;
  queue = map (λ e. e.track) p.queue;
  history = p.history;
}

-- persistenceResultLocked; a failed write starts the retry worker unless it is running.
abbrev pub persistence_result : Bool → Persistence → Persistence
persistence_result failed s =
    if failed then record s { error = unsaved; retrying = true } else record s { error = clean }

-- A write of the given state and play event. Without a store, or once the player's context has
-- ended, there is none.
unfoldable pub save : Bool → DurableState → Option Track → Persistence → Persistence
unfolding save_guild
save canceled state play s = elim s.store [
  | none ↦ s
  | some d ↦
      if canceled
      then s
      else persistence_result (fails d.faults) (record s { store = some (save_guild state play d) })
]

-- persistLocked, and persistResolvedLocked, whose write differs only in the catalog rows.
unfoldable pub persist : GuildPlayer → GuildPlayer
unfolding save durable
persist p = record p { persistence = save p.canceled (durable p) none p.persistence }

abbrev pub is_clean : PersistenceError → Bool
is_clean clean = true
is_clean _ = false

-- Whether the play event of a start can go with its checkpoint: no earlier write is missing.
abbrev pub combines : GuildPlayer → Bool
combines p = is_some p.persistence.store && (is_clean p.persistence.error && not p.canceled)

-- persistPlaybackLocked; `combines` is its result.
unfoldable pub persist_playback : Option Track → GuildPlayer → GuildPlayer
unfolding save durable
persist_playback play p = record p {
  persistence = save p.canceled (durable p) (if combines p then play else none) p.persistence;
}

-- One round of retryPersistence after its delay, and whether the worker stops.
unfoldable pub retry_persistence : GuildPlayer → GuildPlayer × Bool
unfolding persist
retry_persistence p =
    if p.canceled || (not (is_some p.persistence.store) || is_clean p.persistence.error)
    then (p, true)
    else let p' = persist p in (p', is_clean p'.persistence.error)

-- The worker's deferred end.
abbrev pub end_retry : GuildPlayer → GuildPlayer
end_retry p = record p { persistence = record p.persistence { retrying = false } }

-- The worker's loop with a budget of attempts, its deferred end included; `others k` is what other
-- goroutines have done to the player by the time of the k-th attempt.
unfoldable pub retry_loop : ℕ → (ℕ → GuildPlayer → GuildPlayer) → ℕ → GuildPlayer → GuildPlayer
unfolding retry_persistence
retry_loop zero others k p = end_retry p
retry_loop (suc budget) others k p =
    let (q, stops) = retry_persistence (others k p) in
    elim stops [ true ↦ end_retry q | false ↦ retry_loop budget others (k + 1) q ]

abbrev pub retry_attempts : ℕ
retry_attempts = 3

abbrev pub retry_worker : (ℕ → GuildPlayer → GuildPlayer) → GuildPlayer → GuildPlayer
retry_worker others p = retry_loop retry_attempts others 0 p

-- advanceInterrupted: at least half of a recording of known length was confirmed.
unfoldable pub advance_interrupted : Track → Bool
advance_interrupted t = not t.live && ltb 0 t.duration && leb ((t.duration + 1) / 2) t.resume_offset

abbrev pub prepend_current : Option Track → List Track → List Track
prepend_current none tracks = tracks
prepend_current (some t) tracks = if advance_interrupted t then tracks else t ∷ tracks

abbrev pub replays_start : DurableState → Option Track → Bool
replays_start s none = false
replays_start s (some t) =
    s.current_started
    && t.resume_offset == 0
    && not (advance_interrupted t)
    && ltb 0 (length s.history)

-- ConfigureStore with a store whose LoadGuild succeeded. The restored state waits for a voice. Of
-- the two early settings, `loop` and `autoplay` are taken over also when the queue is then refused.
unfoldable pub configure_store : Disk → GuildPlayer → Outcome
unfolding advance_interrupted
configure_store d p =
    let s = d.saved in
    let tracks = prepend_current s.current s.queue in
    let early = record p { loop = s.loop; autoplay = s.autoplay } in
    let history =
      if replays_start s s.current then take (length s.history - 1) s.history else s.history in
    if is_some p.voice || is_some p.current || ltb 0 (length p.queue)
    then (p, some CommandError.configured_late)
    else if ltb (max_queue_tracks + 1) (length tracks)
    then (early, some CommandError.collection_too_long)
    else (
      record early {
        queue = p.queue ++ map ready_entry tracks;
        persistence = record p.persistence { store = some d };
        history = p.history ++ history;
      },
      none,
    )
