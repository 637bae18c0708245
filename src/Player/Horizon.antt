-- ===== src/Player/Horizon.antt =====
-- internal/player/horizon.go: how far ahead of playback a position is, and whether that is near
-- enough to resolve it now.
pub mod Laws
use whiterun_music_bot.Base.{
  ℕ, ◌+◌, ◌-◌, Bool, true, false, ◌&&◌, ◌||◌, Option, none, some, List, [], ◌∷◌, ltb, leb, ◌==◌,
  if◌then◌else◌,
}
use whiterun_music_bot.Media.Track.{Track}
use whiterun_music_bot.Player.State.{GuildPlayer, QueueEntry, is_paused}

-- A live track or one of unknown length: nothing behind it can be timed.
abbrev pub is_barrier : Track → Bool
is_barrier t = t.live || t.duration == 0

-- The loop over the queue, with the time until the entry at hand.
unfoldable pub horizon_from : ℕ → ℕ → ℕ → ℕ → List QueueEntry → ℕ × Bool
horizon_from limit job position eta [] = (0, false)
horizon_from limit job position eta (e ∷ es) =
    let later = horizon_from limit job position (eta + e.track.duration) es in
    if e.job_id == job && e.position == position
    then (eta, ltb eta limit)
    else if is_barrier e.track
    then (0, false)
    else if leb limit (eta + e.track.duration)
    then (eta + e.track.duration, false)
    else later

-- What is left of the current track.
abbrev pub remaining : ℕ → Option Track → ℕ
remaining confirmed none = 0
remaining confirmed (some t) = t.duration - confirmed

abbrev pub current_barrier : Option Track → Bool
current_barrier none = false
current_barrier (some t) = is_barrier t

-- resolutionHorizonLocked. A horizon of 0 leaves only the count of positions as a limit.
unfoldable pub resolution_horizon : ℕ → ℕ → GuildPlayer → ℕ × Bool
unfolding horizon_from
resolution_horizon job position p =
    if p.prefetch_horizon == 0
    then (0, true)
    else if is_paused p.pause || current_barrier p.current
    then (0, false)
    else horizon_from p.prefetch_horizon job position (remaining p.confirmed_offset p.current)
        p.queue
