-- ===== src/Player/Start.antt =====
-- internal/player/lifecycle.go: the first confirmed frame of an attempt (announceStart), and the
-- final metadata that may arrive before it (the `metadata` callback of run in player.go).
use whiterun_music_bot.Base.{
  ℕ, ◌-◌, Bool, not, ◌||◌, none, some, List, [], ◌∷◌, ◌++◌, length, drop, ltb, ◌==◌, if◌then◌else◌,
}
use whiterun_music_bot.Media.Track.{Track}
use whiterun_music_bot.Player.State.{GuildPlayer, Persistence, history_unsaved}
use whiterun_music_bot.Player.Durable.{persist_playback, combines, fails, rest_faults, record_play}

abbrev pub max_history : ℕ
max_history = 100

-- The history keeps the newest entries.
unfoldable pub remember : Track → List Track → List Track
remember t history = let grown = history ++ t ∷ [] in drop (length grown - max_history) grown

-- RecordPlayback, a write of its own.
unfoldable pub record_playback : Track → Persistence → Persistence
record_playback t s = elim s.store [
  | none ↦ s
  | some d ↦
      if fails d.faults
      then record s {
        store = some (record d { faults = rest_faults d.faults });
        error = history_unsaved;
      }
      else record s {
        store =
            some (record d { plays = record_play (some t) d.plays; faults = rest_faults d.faults });
      }
]

-- The saves of a start: the play event goes with the checkpoint, or by itself after it.
unfoldable pub save_start : Track → GuildPlayer → GuildPlayer
unfolding persist_playback record_playback
save_start t p =
    let resumed = ltb 0 t.resume_offset in
    let saved = persist_playback (if resumed then none else some t) p in
    if combines p || (p.canceled || resumed)
    then saved
    else record saved { persistence = record_playback t saved.persistence }

-- What an attempt's start changes, for the current track `t`.
unfoldable pub start_track : ℕ → Track → GuildPlayer → GuildPlayer
unfolding remember
start_track sequence t p = record p {
  started_sequence = sequence;
  history = if ltb 0 t.resume_offset then p.history else remember t p.history;
}

-- announceStart; it acts once for an attempt, and not once its context has ended.
unfoldable pub announce_start : Bool → ℕ → GuildPlayer → GuildPlayer
unfolding start_track save_start
announce_start done sequence p = elim p.current [
  | none ↦ p
  | some t ↦
      if done || (not (p.sequence == sequence) || p.started_sequence == sequence)
      then p
      else save_start t (start_track sequence t p)
]

-- The metadata callback: the offset that playback starts from is kept.
unfoldable pub set_metadata : Bool → ℕ → Track → GuildPlayer → GuildPlayer
set_metadata done sequence resolved p = elim p.current [
  | none ↦ p
  | some t ↦
      if done || (not (p.sequence == sequence) || p.started_sequence == sequence)
      then p
      else record p { current = some (record resolved { resume_offset = t.resume_offset }) }
]
