-- ===== src/Discord/Idle/Health.antt =====
-- When the watch suspends a player's voice.
use whiterun_music_bot.Base.{
  ℕ, ◌+◌, ◌≡◌, Bool, not, ◌&&◌, ◌||◌, none, some, arith, leb, if◌then◌else◌,
}
use whiterun_music_bot.Player.Voice.{suspend_voice}
use whiterun_music_bot.Discord.Idle.{Guild, unhealthy_grace, since_or, check_voice_health}

-- What the health check does: it suspends the player's voice exactly when the bot is known to be in
-- another channel or in none, or when the voice gateway has been unready since a time at least five
-- seconds ago, counted from the first check that found anything amiss; otherwise the player is left
-- alone, however long the main gateway or its cache is silent. It answers false exactly when all four
-- signs are good, and only then forgets that time.
check_voice_health_lem :
    (now : ℕ) (main_ready voice_ready known same_channel : Bool) (g : Guild)
    → ((check_voice_health now main_ready voice_ready known same_channel g).0.player ≡ (
        if (main_ready && (known && not same_channel))
          || (not voice_ready && leb (since_or now g.unhealthy_since + unhealthy_grace) now)
        then suspend_voice g.player
        else g.player))
      × ((check_voice_health now main_ready voice_ready known same_channel g).1
          ≡ not (main_ready && (voice_ready && (known && same_channel))))
      × ((check_voice_health now main_ready voice_ready known same_channel g).0.unhealthy_since ≡ (
          if main_ready && (voice_ready && (known && same_channel))
          then none
          else some (since_or now g.unhealthy_since)))
unfolding check_voice_health
check_voice_health_lem now main_ready voice_ready known same_channel g = ground arith
