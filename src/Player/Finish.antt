-- ===== src/Player/Finish.antt =====
-- internal/player/player.go: the end of a playback attempt, from the return of play to the end of
-- run's round; and SuspendProvider (internal/player/provider_recovery.go).
use whiterun_music_bot.Base.{
  ℕ, ◌+◌, ◌*◌, ◌^◌, Bool, true, false, not, ◌&&◌, ◌||◌, Option, none, some, [], ◌∷◌, ◌++◌, String,
  str_eq, length, ltb, leb, ◌==◌, if◌then◌else◌, is_some,
}
use whiterun_music_bot.Media.Track.{Track, second}
use whiterun_music_bot.Media.Errors.{Err, failure_category, is_deadline, is_voice_failure, one_of}
use whiterun_music_bot.Media.Errors.Provider.{is_provider_failure, provider_failure_category}
use whiterun_music_bot.Media.Admission.{
  Tag, is_blank, ProviderAdmission, ProviderStatus, no_status, is_nil,
}
use whiterun_music_bot.Player.State.{
  GuildPlayer, ready_entry, mutation, max_queue_tracks, CancelCause, voice_lost, Attempt, is_paused,
}
use whiterun_music_bot.Player.Jobs.{signal}
use whiterun_music_bot.Player.Durable.{persist, advance_interrupted}
use whiterun_music_bot.Player.Provider.{
  block_provider, finish_provider, observe_provider, announce_provider,
}
use whiterun_music_bot.Player.Voice.{suspend_voice_locked, open_circuit, complete_recovery}
use whiterun_music_bot.Player.Scheduler.{is_pending}

-- How an attempt came back: play's error, the attempt's track as selected and its cause of
-- cancellation, whether it had started, and the permit that it was given.
pub record Ending : Type 0 where
  pub err : Option Err
  pub selected : Track
  pub cause : Option CancelCause
  pub played : Bool
  pub permit : Tag

abbrev pub at_offset : ℕ → Track → Track
at_offset offset t = record t { resume_offset = offset }

-- The position goes back to the head of the queue, unless it counts as heard.
unfoldable pub retain : Track → GuildPlayer → GuildPlayer
unfolding advance_interrupted
retain t p =
    let interrupted = at_offset p.confirmed_offset t in
    record p {
      recovery_paused = is_paused p.pause;
      queue =
          if advance_interrupted interrupted then p.queue else ready_entry interrupted ∷ p.queue;
    }

abbrev pub caused_by_voice : Option CancelCause → Bool
caused_by_voice (some voice_lost) = true
caused_by_voice _ = false

abbrev pub err_is_voice : Option Err → Bool
err_is_voice none = false
err_is_voice (some e) = is_voice_failure e

-- `category`, as the later tests read it.
unfoldable pub ending_category : Ending → Bool → String
unfolding failure_category
ending_category x done =
    if caused_by_voice x.cause
    then "voice_transport"
    else if done
    then "canceled"
    else elim x.err [ none ↦ "eof" | some e ↦ failure_category e ]

-- A state with whether the ending needs no further failure handling (`expectedCancel`).
abbrev pub Stage : Type 0
Stage = GuildPlayer × Bool

-- A lost transport suspends the voice and keeps the position.
unfoldable pub on_voice_failure : Ending → Stage → Stage
unfolding open_circuit retain
on_voice_failure x (p, expected) = elim p.current [
  | none ↦ (p, true)
  | some t ↦
      if (err_is_voice x.err || caused_by_voice x.cause) && not p.canceled
      then (mutation (retain t (suspend_voice_locked p)), true)
      else (p, expected || p.canceled)
]

abbrev pub gate_status : Option ProviderAdmission → ProviderStatus
gate_status none = no_status
gate_status (some g) = g.status

abbrev pub observe_gate : ℕ → Option Err → Option ProviderAdmission → Option ProviderAdmission
observe_gate now err none = none
observe_gate now err (some g) = some (observe_provider now err g)

abbrev pub err_category : Option Err → String
err_category none = ""
err_category (some e) = provider_failure_category e

-- A provider failure closes the latch and keeps the position.
unfoldable pub on_provider_failure :
    ℕ → Ending → Option ProviderAdmission → Stage → Stage × Option ProviderAdmission
unfolding is_provider_failure provider_failure_category observe_provider block_provider retain
on_provider_failure now x g (p, expected) = elim p.current [
  | none ↦ ((p, expected), g)
  | some t ↦
      let seen = observe_gate now x.err g in
      if not expected && is_provider_failure x.err
      then (
        (mutation (block_provider now (gate_status seen) (err_category x.err) (retain t p)), true),
        seen,
      )
      else ((p, expected), g)
]

-- The trial that the attempt was given is finished with its error.
unfoldable pub finish_permit :
    ℕ → Ending → Option ProviderAdmission → GuildPlayer → GuildPlayer × Option ProviderAdmission
unfolding finish_provider
finish_permit now x g p =
    if is_blank x.permit then (p, g) else finish_provider now x.err x.permit g p

abbrev pub err_is_deadline : Option Err → Bool
err_is_deadline none = false
err_is_deadline (some e) = is_deadline e

-- The failures that are tried again from the confirmed offset.
unfoldable pub is_network_failure : Ending → String → Bool
unfolding is_deadline one_of
is_network_failure x category =
    not (is_nil x.err)
    && (not (ltb 0 x.selected.resume_offset && (not x.played && str_eq category "ffmpeg_exit"))
        && ((x.played && one_of category ("ffmpeg_exit" ∷ "yt_dlp_exit" ∷ "source_http_403" ∷ []))
            || (one_of category ("source_network" ∷ "audio_stall" ∷ []) || err_is_deadline x.err)))

-- The third failure in a row halts the player; before it there is a delay, to which `jitter` of at
-- most a quarter is added.
unfoldable pub schedule_retry : ℕ → ℕ → GuildPlayer → GuildPlayer
schedule_retry now jitter p =
    let attempts = p.network_attempts + 1 in
    let counted = mutation (record p { network_attempts = attempts }) in
    if leb attempts 2
    then record counted { retry_at = now + (second * 2 ^ p.network_attempts + jitter) }
    else record counted { halted = true }

unfoldable pub on_network_failure : ℕ → ℕ → Ending → String → Stage → Stage
unfolding retain is_network_failure schedule_retry complete_recovery
on_network_failure now jitter x category (p, expected) = elim p.current [
  | none ↦ (p, expected)
  | some t ↦
      if not expected && is_network_failure x category
      then (schedule_retry now jitter (retain t p), true)
      else if not expected && is_nil x.err
      then (complete_recovery p, expected)
      else (p, expected)
]

-- A resumed position that fails otherwise is kept, and the player halts.
unfoldable pub on_resume_failure : Ending → Stage → Stage
on_resume_failure x (p, expected) = elim p.current [
  | none ↦ (p, expected)
  | some t ↦
      if not (is_nil x.err) && (not expected && ltb 0 x.selected.resume_offset)
      then (
        record p { queue = ready_entry (at_offset p.confirmed_offset t) ∷ p.queue; halted = true },
        true,
      )
      else (p, expected)
]

abbrev pub or_selected : Track → Option Track → Track
or_selected t none = t
or_selected t (some c) = c

-- A track that ended well is repeated as the loop mode says, where there is room.
unfoldable pub repeat_track : Ending → Stage → GuildPlayer
repeat_track x (p, expected) =
    let again = ready_entry (at_offset 0 (or_selected x.selected p.current)) in
    if not expected && (is_nil x.err && (x.played && ltb (length p.queue) max_queue_tracks))
    then record p {
      queue =
          if str_eq p.loop "track"
          then again ∷ p.queue
          else if str_eq p.loop "queue"
          then p.queue ++ again ∷ []
          else p.queue;
    }
    else p

-- The teardown, the failure count, and the save.
unfoldable pub tear_down : Ending → Bool → GuildPlayer → GuildPlayer
unfolding signal persist
tear_down x expected p =
    let ended = record p {
      current = none;
      pause = none;
      attempt = none;
      failures = if not (is_nil x.err) && not expected then p.failures + 1 else 0;
    } in
    if p.canceled then ended else persist (if is_pending p.queue then signal ended else ended)

-- announceProvider, after a provider failure.
unfoldable pub announce : Bool → GuildPlayer → GuildPlayer
unfolding announce_provider
announce failed p = if failed then record p { provider = (announce_provider p.provider).0 } else p

abbrev pub attempt_of : Option Err → Tag → GuildPlayer → Attempt → Ending
attempt_of err permit p a = record {
  err = err;
  selected = a.track;
  cause = a.cause;
  played = p.started_sequence == a.sequence;
  permit = permit;
}

-- run from the return of play on.
unfoldable pub finish_attempt :
    ℕ → ℕ → Ending → Option ProviderAdmission → GuildPlayer → GuildPlayer × Option ProviderAdmission
finish_attempt now jitter x g p =
    let done = is_some x.cause || p.canceled in
    let (q, expected) = on_voice_failure x (p, done) in
    let (s, g') = on_provider_failure now x g (q, expected) in
    let (r, g'') = finish_permit now x g' s.0 in
    let t = on_network_failure now jitter x (ending_category x done) (r, s.1) in
    let u = on_resume_failure x t in
    let failed = not expected && s.1 in (announce failed (tear_down x u.1 (repeat_track x u)), g'')

-- SuspendProvider: preparing a request failed; audio that plays goes on.
unfoldable pub suspend_provider :
    ℕ → Option Err → Option ProviderAdmission → GuildPlayer → GuildPlayer × Option ProviderAdmission
unfolding is_provider_failure block_provider
suspend_provider now err g p =
    let seen = observe_gate now err g in
    if not (is_provider_failure err) || p.canceled
    then (p, g)
    else (announce true (block_provider now (gate_status seen) (err_category err) p), seen)
