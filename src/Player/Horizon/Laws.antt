-- ===== src/Player/Horizon/Laws.antt =====
-- Which positions are near enough, against the time until they play.
use whiterun_music_bot.Base.{
  ℕ, ◌+◌, ◌<◌, ◌≡◌, ◌↔◌, Bool, true, false, ◌||◌, List, [], ◌∷◌, ◌++◌, arith,
}
use whiterun_music_bot.Player.State.{GuildPlayer, QueueEntry, is_paused}
use whiterun_music_bot.Player.Collection.{is_slot, has_slot}
use whiterun_music_bot.Player.Horizon.{
  horizon_from, resolution_horizon, is_barrier, remaining, current_barrier,
}

-- How long the entries play together, and whether one of them cannot be timed.
unfoldable pub total_duration : List QueueEntry → ℕ
total_duration [] = 0
total_duration (e ∷ es) = e.track.duration + total_duration es

unfoldable pub has_barrier : List QueueEntry → Bool
has_barrier [] = false
has_barrier (e ∷ es) = is_barrier e.track || has_barrier es

horizon_split :
    (limit job position eta : ℕ) (before rest : List QueueEntry) (e : QueueEntry)
    → has_slot job position before ≡ false
    → is_slot job position e ≡ true
    → ((horizon_from limit job position eta (before ++ e ∷ rest)).1 ≡ true)
      ↔ ((has_barrier before ≡ false) × (eta + total_duration before < limit))
unfolding horizon_from total_duration has_barrier has_slot
horizon_split limit job position eta [] rest e h s = ground (arith, s)
horizon_split limit job position eta (b ∷ before) rest e h s =
    ground (arith, s, h, horizon_split limit job position (eta + b.track.duration) before rest e)

-- With a horizon set, a collection's position may be resolved exactly when playback is not paused,
-- neither the current track nor any entry before the position is live or of unknown length, and what
-- is left of the current track together with those entries plays for less than the horizon.
pub resolution_horizon_lem :
    (job position : ℕ) (before rest : List QueueEntry) (e : QueueEntry) (p : GuildPlayer)
    → 0 < p.prefetch_horizon
    → p.queue ≡ before ++ e ∷ rest
    → has_slot job position before ≡ false
    → is_slot job position e ≡ true
    → ((resolution_horizon job position p).1 ≡ true) ↔ (
        (is_paused p.pause ≡ false)
        × (current_barrier p.current ≡ false)
        × (has_barrier before ≡ false)
        × (remaining p.confirmed_offset p.current + total_duration before < p.prefetch_horizon))
unfolding resolution_horizon
resolution_horizon_lem job position before rest e p l q h s =
    let split =
      horizon_split p.prefetch_horizon job position (remaining p.confirmed_offset p.current) before
        rest e h s in
    ground (arith, q, split)
