-- ===== src/Player/Pause.antt =====
-- internal/player/pause.go: SetPaused, which pauses the current track or asks for recovery.
use whiterun_music_bot.Base.{
  ℕ, Bool, true, false, not, ◌&&◌, ◌||◌, Option, none, some, leb, ltb, ◌==◌, if◌then◌else◌, is_some,
  length, ◌+◌,
}
use whiterun_music_bot.Media.Admission.{ProviderStatus}
use whiterun_music_bot.Player.State.{GuildPlayer, CommandError, is_paused}
use whiterun_music_bot.Player.Jobs.{signal, wake_collections}
use whiterun_music_bot.Player.Provider.{reset_provider}
use whiterun_music_bot.Player.Voice.{max_voice_attempts}

-- The state, whether something changed, and the error.
abbrev pub PauseOutcome : Type 0
PauseOutcome = GuildPlayer × Bool × Option CommandError

-- pauseGate.set on the current track's gate; a change wakes the collections.
unfoldable pub set_gate : Bool → GuildPlayer → GuildPlayer × Bool
unfolding wake_collections
set_gate paused p =
    if (paused && is_paused p.pause) || (not paused && not (is_paused p.pause))
    then (p, false)
    else (wake_collections (record p { pause = some paused }), true)

-- A command while the voice is suspended: what it asks for holds once audio is back.
unfoldable pub pause_suspended : Bool → GuildPlayer → PauseOutcome
unfolding signal
pause_suspended paused p =
    let asked = record p { recovery_paused = paused } in
    let renewed = record asked { voice_circuit = record p.voice_circuit { attempts = 0 } } in
    if paused then (asked, true, none) else (
      signal (if leb max_voice_attempts p.voice_circuit.attempts then renewed else asked),
      true,
      none,
    )

-- Resume while the process-wide gate is blocked: it never renews the shared budget.
unfoldable pub resume_global : ProviderStatus → GuildPlayer → PauseOutcome
unfolding set_gate signal
resume_global shared p =
    let (resumed, changed) = set_gate false p in
    if is_some p.current && is_paused p.pause
    then (resumed, changed, none)
    else if shared.exhausted
    then (p, false, some CommandError.budget_exhausted)
    else (signal p, true, none)

-- Resume while the player's own latch is closed.
unfoldable pub resume_local : ℕ → GuildPlayer → PauseOutcome
unfolding reset_provider signal
resume_local now p =
    let l = p.provider in
    if l.probe
    then (p, true, none)
    else if length p.queue == 0 && length p.jobs == 0
    then (signal (reset_provider p), true, none)
    else (
      signal (record p {
        provider = record l { retries = 0; retry_at = now; changes = l.changes + 1 };
        failures = 0;
      }),
      true,
      none,
    )

unfoldable pub resume_halted : GuildPlayer → PauseOutcome
unfolding signal
resume_halted p = (
  signal (record p { halted = false; network_attempts = 0; retry_at = 0; failures = 0 }),
  true,
  none,
)

unfoldable pub pause_current : Bool → GuildPlayer → PauseOutcome
unfolding set_gate
pause_current paused p =
    let (p', changed) = set_gate paused p in
    if not (is_some p.current) || (not (is_some p.pause) || p.canceled)
    then (p, false, some CommandError.not_playing)
    else (p', changed, none)

-- SetPaused. `shared` is the shared gate's status; none where the player has no admission.
unfoldable pub set_paused : ℕ → Option ProviderStatus → Bool → GuildPlayer → PauseOutcome
set_paused now none paused p =
    if p.voice_circuit.blocked && ltb 0 (length p.queue)
    then pause_suspended paused p
    else if not paused && p.provider.blocked
    then resume_local now p
    else if not paused && p.halted
    then resume_halted p
    else pause_current paused p
set_paused now (some shared) paused p =
    if p.voice_circuit.blocked && ltb 0 (length p.queue)
    then pause_suspended paused p
    else if not paused && p.provider.blocked
    then (if p.provider.global then resume_global shared p else resume_local now p)
    else if not paused && p.halted
    then resume_halted p
    else pause_current paused p
