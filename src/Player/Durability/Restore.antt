-- ===== src/Player/Durability/Restore.antt =====
-- What a restart makes of the state that was saved: saveGuild, then ConfigureStore on a new player.
use whiterun_music_bot.Base.{
  ℕ, ◌+◌, ◌≤◌, ◌≡◌, refl, Bool, Option, none, some, List, map, length, arith, occupancy, length-map,
}
use whiterun_music_bot.Media.Track.{Track}
use whiterun_music_bot.Player.State.{Disk, GuildPlayer, ready_entry, max_queue_tracks, QueueEntry}
use whiterun_music_bot.Player.System.{Event, run, guild_player}
use whiterun_music_bot.Player.System.Capacity.{player_run-Inv, IsRestorable}
use whiterun_music_bot.Player.Durable.{durable, configure_store, with_offset, prepend_current}

-- The track of an entry alone: whatever was pending is restored as an ordinary position.
abbrev pub restored : List QueueEntry → List QueueEntry
restored q = map ready_entry (map (λ e. e.track) q)

length-prepend_current :
    (c : Option Track) (ts : List Track) → length (prepend_current c ts) ≤ occupancy c + length ts
length-prepend_current none ts = omega arith
length-prepend_current (some t) ts = ground arith

occupancy-with_offset :
    (offset : ℕ) (c : Option Track) → occupancy (with_offset offset c) ≡ occupancy c
occupancy-with_offset offset none = refl
occupancy-with_offset offset (some t) = refl

-- A restart from the state that a player within its bounds saved is never refused. It finds the loop
-- mode and autoplay, and the tracks of the queue in their order, with the current track in front at
-- its confirmed offset unless at least half of it was heard.
pub restore_lem :
    (p : GuildPlayer) (plays : List Track) (faults : List Bool) (longest horizon : ℕ)
    → length p.queue + occupancy p.current ≤ max_queue_tracks + 1
    → let d : Disk = record { saved = durable p; plays = plays; faults = faults } in
      let o = configure_store d (guild_player longest horizon none) in
      (o.1 ≡ none)
      × (o.0.loop ≡ p.loop)
      × (o.0.autoplay ≡ p.autoplay)
      × (o.0.queue
          ≡ map ready_entry (
              prepend_current
                (with_offset p.confirmed_offset p.current)
                (map (λ e. e.track) p.queue)))
unfolding configure_store durable guild_player
restore_lem p plays faults longest horizon h = ground (
  arith,
  length-prepend_current (with_offset p.confirmed_offset p.current) (map (λ e. e.track) p.queue),
  occupancy-with_offset p.confirmed_offset p.current,
  length-map (λ (e : QueueEntry). e.track) p.queue,
)

-- Whatever happened to a player since it was made and configured for its guild, with a database
-- whose history has at most 100 entries or with none, if the database `d` holds its durable state
-- then the player that the next start makes takes it over without an error: the queue in its order,
-- the current track in front of it at its confirmed offset unless at least half of it was heard,
-- with the loop mode and autoplay.
pub restart_lem :
    (longest horizon : ℕ) (store : Option Disk) (es : List Event) (d : Disk) (later : ℕ)
    → IsRestorable store
    → d.saved ≡ durable (run es (guild_player longest horizon store))
    → let p = run es (guild_player longest horizon store) in
      let o = configure_store d (guild_player longest later none) in
      (o.1 ≡ none)
      × (o.0.loop ≡ p.loop)
      × (o.0.autoplay ≡ p.autoplay)
      × (o.0.queue
          ≡ map ready_entry (
              prepend_current
                (with_offset p.confirmed_offset p.current)
                (map (λ e. e.track) p.queue)))
restart_lem longest horizon store es d later r h =
    let b = player_run-Inv longest horizon store es r in
    rw h (
      restore_lem (run es (guild_player longest horizon store)) d.plays d.faults longest later
        b.capacity)
