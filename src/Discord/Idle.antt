-- ===== src/Discord/Idle.antt =====
-- internal/discord/idle.go, and the worker watchVoice of internal/discord/bot.go that runs its checks.
-- Each function here is a section under the guild's mutex; times are nanoseconds of a clock that does
-- not go back. What Discord's caches and gateways say is an argument.
pub mod Grace
pub mod Health
use whiterun_music_bot.Base.{
  ℕ, ◌+◌, ◌-◌, ◌*◌, Bool, true, false, not, ◌&&◌, ◌||◌, Option, none, some, List, [], ◌∷◌, ltb, leb,
  ◌==◌, if◌then◌else◌, inc64,
}
use whiterun_music_bot.Media.Track.{second}
use whiterun_music_bot.Player.State.{GuildPlayer}
use whiterun_music_bot.Player.Commands.{leave}
use whiterun_music_bot.Player.Voice.{suspend_voice}

-- The type guild, without the deliveries of queue messages. `search_context` counts the contexts that
-- searches of the guild have been given.
pub record Guild : Type 0 where
  pub player : GuildPlayer
  pub connected : Bool
  pub channel : ℕ
  pub empty_since : Option ℕ
  pub unhealthy_since : Option ℕ
  pub search_context : ℕ
  pub announcement_channel : ℕ
  pub announcement_epoch : ℕ

abbrev pub empty_channel_grace : ℕ
empty_channel_grace = 120 * second

-- resetSearches: the searches under the old context are canceled.
abbrev pub reset_searches : Guild → Guild
reset_searches g = record g { search_context = g.search_context + 1 }

-- leave, of the guild.
unfoldable pub leave_guild : Guild → Guild
leave_guild g =
    let h = reset_searches (record g {
      empty_since = none;
      unhealthy_since = none;
      announcement_channel = 0;
      announcement_epoch = inc64 g.announcement_epoch;
    }) in
    record h { player = leave h.player; connected = false; channel = 0 }

pub record VoiceState : Type 0 where
  pub user : ℕ
  pub channel : Option ℕ

abbrev pub is_at : ℕ → Option ℕ → Bool
is_at channel none = false
is_at channel (some c) = c == channel

-- Whether a member, if the cache knows it, is a bot.
abbrev pub counts : Option Bool → Bool
counts none = true
counts (some bot) = not bot

-- hasListeners, for the bot's own user and the cached members.
unfoldable pub has_listeners : ℕ → (ℕ → Option Bool) → List VoiceState → Guild → Bool
has_listeners self members [] g = false
has_listeners self members (v ∷ vs) g =
    (not (v.user == self || not (is_at g.channel v.channel)) && counts (members v.user))
    || has_listeners self members vs g

-- checkEmpty at a time, with whether there are listeners and whether the bot shuts down.
unfoldable pub check_empty : ℕ → Bool → Bool → Guild → Guild
unfolding leave_guild
check_empty now listeners shutting g =
    if not g.connected || (shutting || listeners)
    then record g { empty_since = none }
    else elim g.empty_since [
      | none ↦ record g { empty_since = some now }
      | some since ↦ if ltb (now - since) empty_channel_grace then g else leave_guild g
    ]

-- The handler of voiceStateChanged, of a guild that the bot knows.
unfoldable pub voice_state_changed : Bool → Option ℕ → Guild → Guild
voice_state_changed bot channel g =
    if not bot && is_at g.channel channel then record g { empty_since = none } else g

abbrev pub unhealthy_grace : ℕ
unhealthy_grace = 5 * second

abbrev pub since_or : ℕ → Option ℕ → ℕ
since_or now none = now
since_or now (some t) = t

-- checkVoiceHealth.
unfoldable pub check_voice_health : ℕ → Bool → Bool → Bool → Bool → Guild → Guild × Bool
unfolding suspend_voice
check_voice_health now main_ready voice_ready known same_channel g =
    let terminal = main_ready && (known && not same_channel) in
    let since = since_or now g.unhealthy_since in
    let marked = record g { unhealthy_since = some since } in
    if main_ready && (voice_ready && (known && same_channel))
    then (record g { unhealthy_since = none }, false)
    else if (terminal || not voice_ready) && (terminal || leb unhealthy_grace (now - since))
    then (record marked { player = suspend_voice g.player }, true)
    else (marked, true)

-- What a round of watchVoice finds for a guild.
pub record Watch : Type 0 where
  pub now : ℕ
  pub main_ready : Bool
  pub voice_ready : Bool
  pub known : Bool
  pub same_channel : Bool
  pub listeners : Bool
  pub shutting : Bool

abbrev pub sees_channel : Watch → Bool
sees_channel w = w.main_ready && (w.known && w.same_channel)

-- A round of watchVoice for one guild.
unfoldable pub watch_guild : Watch → Guild → Guild
unfolding check_empty check_voice_health
watch_guild w g =
    let (h, unhealthy) =
      check_voice_health w.now w.main_ready w.voice_ready w.known w.same_channel g in
    if not g.connected
    then check_empty w.now w.listeners w.shutting g
    else if unhealthy && not (sees_channel w)
    then h
    else check_empty w.now w.listeners w.shutting h

-- The end of a command that joins a channel.
unfoldable pub join_channel : ℕ → GuildPlayer → Guild → Guild
join_channel channel attached g = record g {
  player = attached;
  connected = true;
  channel = channel;
  empty_since = none;
}

-- What happens to a guild: a round of the watch, a change of somebody's voice state, a command that
-- joins a channel, the command "leave", and what else changes the player.
pub data Event : Type 0 where
  watches : Watch → Event
  changes : Bool → Option ℕ → Event
  joins : ℕ → GuildPlayer → Event
  leaves : Event
  plays : GuildPlayer → Event

unfoldable pub happen : Event → Guild → Guild
unfolding watch_guild voice_state_changed join_channel leave_guild
happen (watches w) g = watch_guild w g
happen (changes bot channel) g = voice_state_changed bot channel g
happen (joins channel p) g = join_channel channel p g
happen leaves g = leave_guild g
happen (plays p) g = record g { player = p }

unfoldable pub happen_all : List Event → Guild → Guild
unfolding happen
happen_all [] g = g
happen_all (e ∷ es) g = happen_all es (happen e g)
