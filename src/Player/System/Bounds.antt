-- ===== src/Player/System/Bounds.antt =====
-- The bounds that hold of a player between two events, and the events that leave them alone.
use whiterun_music_bot.Base.{
  ℕ, ◌+◌, ◌≤◌, ◌≡◌, refl, List, String, length, arith, occupancy, Option, none, some,
}
use whiterun_music_bot.Media.Errors.{Err}
use whiterun_music_bot.Media.Admission.{Tag, ProviderAdmission, ProviderStatus}
use whiterun_music_bot.Player.State.{GuildPlayer, max_queue_tracks}
use whiterun_music_bot.Player.Provider.{
  block_provider, finish_provider, enter_shared, adopt_permit, configure_youtube,
}
use whiterun_music_bot.Player.Seek.{seek, seek_to, parse_timestamp}
use whiterun_music_bot.Player.Scheduler.{return_permit}
use whiterun_music_bot.Player.Voice.{max_voice_attempts}
use whiterun_music_bot.Player.Start.{max_history}

pub record Inv (p : GuildPlayer) : Type 0 where
  pub capacity : length p.queue + occupancy p.current ≤ max_queue_tracks + 1
  pub owned : occupancy p.current ≤ occupancy p.attempt
  pub remembered : length p.history ≤ max_history
  pub voice_budget : p.voice_circuit.attempts ≤ max_voice_attempts

-- Nothing that the bounds speak of has changed.
pub record Frame (p q : GuildPlayer) : Type 0 where
  pub queue : q.queue ≡ p.queue
  pub current : q.current ≡ p.current
  pub attempt : q.attempt ≡ p.attempt
  pub history : q.history ≡ p.history
  pub voice_circuit : q.voice_circuit ≡ p.voice_circuit

pub Frame-Inv : (p q : GuildPlayer) → Frame p q → Inv p → Inv q
Frame-Inv p q f i = ground (arith, f, i)

pub block_provider-Frame :
    (now : ℕ) (shared : ProviderStatus) (reason : String) (p : GuildPlayer)
    → Frame p (block_provider now shared reason p)
unfolding block_provider
block_provider-Frame now shared reason p = ground arith

pub finish_provider-Frame :
    (now : ℕ) (err : Option Err) (permit : Tag) (g : Option ProviderAdmission) (p : GuildPlayer)
    → Frame p (finish_provider now err permit g p).0
unfolding finish_provider
finish_provider-Frame now err permit none p = ground arith
finish_provider-Frame now err permit (some g) p = ground arith

pub enter_shared-Frame :
    (now : ℕ) (shared : ProviderStatus) (p : GuildPlayer) → Frame p (enter_shared now shared p).0
unfolding enter_shared
enter_shared-Frame now shared p =
    let f = block_provider-Frame now shared shared.category p in ground (arith, f)

pub adopt_permit-Frame :
    (permit : Tag) (status : ProviderStatus) (p : GuildPlayer)
    → Frame p (adopt_permit permit status p)
unfolding adopt_permit
adopt_permit-Frame permit status p = ground arith

pub configure_youtube-Frame :
    (longest horizon : ℕ) (p : GuildPlayer) → Frame p (configure_youtube longest horizon p).0
unfolding configure_youtube
configure_youtube-Frame longest horizon p = ground arith

seek_to-same : (t : Option ℕ) (p : GuildPlayer) → (seek_to t p).0 ≡ p
unfolding seek_to
seek_to-same none p = refl
seek_to-same (some position) p = ground arith

-- A seek never changes the player.
pub seek-same : (raw : List ℕ) (p : GuildPlayer) → (seek raw p).0 ≡ p
unfolding seek
seek-same raw p = seek_to-same (parse_timestamp raw) p

pub return_permit-Frame :
    (now : ℕ) (permit : Tag) (g : Option ProviderAdmission) (p : GuildPlayer)
    → Frame p (return_permit now permit g p).0
unfolding return_permit
return_permit-Frame now permit none p = ground arith
return_permit-Frame now permit (some g) p = ground arith
