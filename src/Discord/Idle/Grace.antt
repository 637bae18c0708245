-- ===== src/Discord/Idle/Grace.antt =====
-- When the bot leaves a channel by itself.
use whiterun_music_bot.Base.{
  ℕ, ◌+◌, ◌≤◌, ◌≡◌, ◌⊎◌, inl, inr, refl, sym, ap, ◌∙◌, Bool, true, false, Option, none, some, List,
  [], ◌∷◌, ◌++◌, arith, Option-cases, Each, Each-append,
}
use mathlib.Core.Path.{subst}
use mathlib.Core.Bool.{true≢false}
use mathlib.Core.Option.{none-ne-some}
use mathlib.Core.List.{append_assoc, append-nil}
use whiterun_music_bot.Discord.Idle.{
  Guild, empty_channel_grace, leave_guild, is_at, check_empty, voice_state_changed,
  check_voice_health, Watch, sees_channel, watch_guild, join_channel, Event, watches, changes,
  joins, leaves, plays, happen, happen_all,
}

-- An event at which nobody who counts is seen in the channel: a round that sees no listener or cannot
-- see the channel, and a change that brings nobody but bots into it.
abbrev pub IsUnoccupied : ℕ → Event → Type 0
IsUnoccupied channel (watches w) = (w.listeners ≡ false) ⊎ (sees_channel w ≡ false)
IsUnoccupied channel (changes bot to) = (bot ≡ true) ⊎ (is_at channel to ≡ false)
IsUnoccupied channel (joins c p) = ⊥
IsUnoccupied channel leaves = ⊥
IsUnoccupied channel (plays p) = Unit

-- A round at time `t` found the channel without listeners, and nobody has been seen there since.
pub record IsQuiet (events : List Event) (t channel : ℕ) : Type 0 where
  pub before : List Event
  pub round : Watch
  pub after : List Event
  pub split : events ≡ before ++ watches round ∷ after
  pub at : round.now ≡ t
  pub empty : round.listeners ≡ false
  pub quiet : Each (IsUnoccupied channel) after

-- What an event that leaves the channel empty since `t` was.
abbrev Follows : Event → Guild → Guild → ℕ → Type 0
Follows e g h t =
    ((g.empty_since ≡ some t) × (g.channel ≡ h.channel) × IsUnoccupied h.channel e)
    ⊎ ((w : Watch) × (e ≡ watches w) × (w.now ≡ t) × (w.listeners ≡ false))

check_empty_since :
    (now : ℕ) (listeners shutting : Bool) (g : Guild) (t : ℕ)
    → (check_empty now listeners shutting g).empty_since ≡ some t
    → (listeners ≡ false)
      × ((check_empty now listeners shutting g).channel ≡ g.channel)
      × ((g.empty_since ≡ some t) ⊎ (now ≡ t))
unfolding check_empty leave_guild
check_empty_since now listeners shutting g t h = ground arith

-- The health check leaves the connection, the channel and the time of emptiness alone.
health_keeps :
    (now : ℕ) (main_ready voice_ready known same_channel : Bool) (g : Guild)
    → ((check_voice_health now main_ready voice_ready known same_channel g).0.connected
        ≡ g.connected)
      × ((check_voice_health now main_ready voice_ready known same_channel g).0.channel ≡ g.channel)
      × ((check_voice_health now main_ready voice_ready known same_channel g).0.empty_since
          ≡ g.empty_since)
unfolding check_voice_health
health_keeps now main_ready voice_ready known same_channel g = ground arith

watch_since :
    (w : Watch) (g : Guild) (t : ℕ)
    → (watch_guild w g).empty_since ≡ some t
    → ((watch_guild w g).channel ≡ g.channel)
      × (((g.empty_since ≡ some t) × ((w.listeners ≡ false) ⊎ (sees_channel w ≡ false)))
          ⊎ ((w.now ≡ t) × (w.listeners ≡ false)))
unfolding watch_guild
watch_since w g t h =
    let c = check_voice_health w.now w.main_ready w.voice_ready w.known w.same_channel g in
    ground (
      arith,
      health_keeps w.now w.main_ready w.voice_ready w.known w.same_channel g,
      check_empty_since w.now w.listeners w.shutting g t,
      check_empty_since w.now w.listeners w.shutting c.0 t,
    )

changes_since :
    (bot : Bool) (to : Option ℕ) (g : Guild) (t : ℕ)
    → (voice_state_changed bot to g).empty_since ≡ some t
    → (g.empty_since ≡ some t)
      × ((voice_state_changed bot to g).channel ≡ g.channel)
      × ((bot ≡ true) ⊎ (is_at g.channel to ≡ false))
unfolding voice_state_changed
changes_since bot to g t h = ground arith

happen-Follows :
    (e : Event) (g : Guild) (t : ℕ) → (happen e g).empty_since ≡ some t → Follows e g (happen e g) t
unfolding happen
happen-Follows (watches w) g t h =
    let s = watch_since w g t h in
    elim s.1 [ inl k ↦ inl (k.0, sym s.0, k.1) | inr k ↦ inr (w, refl, k.0, k.1) ]
happen-Follows (changes bot to) g t h =
    let s = changes_since bot to g t h in
    inl (s.0, sym s.1, subst (λ (c : ℕ). (bot ≡ true) ⊎ (is_at c to ≡ false)) (sym s.1) s.2)
happen-Follows (joins c p) g t h = unfold join_channel in ground (arith, h)
happen-Follows leaves g t h = unfold leave_guild in ground (arith, h)
happen-Follows (plays p) g t h = inl (h, refl, tt)

one_more :
    (seen : List Event) (e : Event) (g : Guild) (t : ℕ)
    → ((s : ℕ) → g.empty_since ≡ some s → IsQuiet seen s g.channel)
    → (happen e g).empty_since ≡ some t
    → IsQuiet (seen ++ e ∷ []) t (happen e g).channel
one_more seen e g t q h = elim (happen-Follows e g t h) [
  | inl (same, stays, un) ↦
      let p = q t same in
      record {
        before = p.before;
        round = p.round;
        after = p.after ++ e ∷ [];
        split =
            ap (λ (l : List Event). l ++ e ∷ []) p.split
            ∙ append_assoc p.before (watches p.round ∷ p.after) (e ∷ []);
        at = p.at;
        empty = p.empty;
        quiet =
            Each-append (IsUnoccupied (happen e g).channel) p.after (e ∷ [])
              (subst (λ (c : ℕ). Each (IsUnoccupied c) p.after) stays p.quiet) (un, tt);
      }
  | inr (w, new, now, none_there) ↦ record {
    before = seen;
    round = w;
    after = [];
    split = ap (λ (x : Event). seen ++ x ∷ []) new;
    at = now;
    empty = none_there;
    quiet = tt;
  }
]

happen_all-IsQuiet :
    (seen events : List Event) (g : Guild)
    → ((s : ℕ) → g.empty_since ≡ some s → IsQuiet seen s g.channel)
    → (t : ℕ) → (happen_all events g).empty_since ≡ some t
    → IsQuiet (seen ++ events) t (happen_all events g).channel
unfolding happen_all
happen_all-IsQuiet seen [] g q t h =
    subst (λ (l : List Event). IsQuiet l t g.channel) (sym (append-nil seen)) (q t h)
happen_all-IsQuiet seen (e ∷ events) g q t h =
    subst (λ (l : List Event). IsQuiet l t (happen_all events (happen e g)).channel)
      (append_assoc seen (e ∷ []) events)
      (happen_all-IsQuiet (seen ++ e ∷ []) events (happen e g) (λ s k. one_more seen e g s q k) t h)

check_empty_stays :
    (now : ℕ) (listeners shutting : Bool) (g : Guild)
    → g.connected ≡ true
    → g.empty_since ≡ none
    → (check_empty now listeners shutting g).connected ≡ true
unfolding check_empty
check_empty_stays now listeners shutting g c e = ground arith

check_empty_waited :
    (now : ℕ) (listeners shutting : Bool) (g : Guild) (t : ℕ)
    → g.connected ≡ true
    → g.empty_since ≡ some t
    → (check_empty now listeners shutting g).connected ≡ false
    → (t + empty_channel_grace ≤ now) × (listeners ≡ false) × (shutting ≡ false)
unfolding check_empty leave_guild
check_empty_waited now listeners shutting g t c e h = ground arith

check_empty_leaves :
    (now : ℕ) (listeners shutting : Bool) (g : Guild)
    → g.connected ≡ true
    → (check_empty now listeners shutting g).connected ≡ false
    → (t : ℕ) × (g.empty_since ≡ some t)
      × (t + empty_channel_grace ≤ now)
      × (listeners ≡ false)
      × (shutting ≡ false)
check_empty_leaves now listeners shutting g c h = elim (Option-cases g.empty_since) [
  | inl e ↦ elim (true≢false (sym (check_empty_stays now listeners shutting g c e) ∙ h)) [ ]
  | inr (t, e) ↦
      let p = check_empty_waited now listeners shutting g t c e h in (t, e, p.0, p.1, p.2)
]

-- The health check's guild of a round.
abbrev checked_guild : Watch → Guild → Guild
checked_guild w g = (check_voice_health w.now w.main_ready w.voice_ready w.known w.same_channel g).0

watch_checks :
    (w : Watch) (g : Guild)
    → g.connected ≡ true
    → (watch_guild w g).connected ≡ false
    → (check_empty w.now w.listeners w.shutting (checked_guild w g)).connected ≡ false
unfolding watch_guild
watch_checks w g c h =
    ground (arith, health_keeps w.now w.main_ready w.voice_ready w.known w.same_channel g)

watch_leaves :
    (w : Watch) (g : Guild)
    → g.connected ≡ true
    → (watch_guild w g).connected ≡ false
    → (t : ℕ) × (g.empty_since ≡ some t)
      × (t + empty_channel_grace ≤ w.now)
      × (w.listeners ≡ false)
      × (w.shutting ≡ false)
watch_leaves w g c h =
    let keeps = health_keeps w.now w.main_ready w.voice_ready w.known w.same_channel g in
    let p =
      check_empty_leaves w.now w.listeners w.shutting (checked_guild w g) (keeps.0 ∙ c)
        (watch_checks w g c h) in
    (p.0, sym keeps.2 ∙ p.1, p.2, p.3, p.4)

-- The watch takes the bot out of a channel only after two minutes without anybody who listens: the
-- round that leaves sees no listener and no shutdown, a round at least 120 seconds before it saw none
-- either, and at no event between the two was anybody seen in the channel who is not a known bot, nor
-- did a command join or leave. So one visit, however short, starts the two minutes anew. Rounds that
-- could not see the channel, because of the main gateway or the cache, count as such events.
pub watch_grace :
    (events : List Event) (w : Watch) (g : Guild)
    → g.empty_since ≡ none
    → (happen_all events g).connected ≡ true
    → (watch_guild w (happen_all events g)).connected ≡ false
    → (t : ℕ) × IsQuiet events t (happen_all events g).channel
      × (t + empty_channel_grace ≤ w.now)
      × (w.listeners ≡ false)
      × (w.shutting ≡ false)
watch_grace events w g e c h =
    let p = watch_leaves w (happen_all events g) c h in
    (
      p.0,
      happen_all-IsQuiet [] events g (λ s k. elim (none-ne-some s (sym e ∙ k)) [ ]) p.0 p.1,
      p.2,
      p.3,
      p.4,
    )
