-- ===== src/Media/Limiter.antt =====
-- internal/media/progressive.go (MatchLimiter): the slots that bound the Spotify searches of all
-- guilds. Its two buffered channels are their counts; a send that finds its channel full waits, so the
-- action is not possible then. The counts of searches are the callers' positions inside `acquire` and
-- between it and the release that it returns. A nil limiter, which bounds nothing, is left out.
pub mod Room
use whiterun_music_bot.Base.{ℕ, ◌+◌, ◌-◌, Option, none, some, List, [], ◌∷◌, ltb, if◌then◌else◌}

pub record MatchLimiter : Type 0 where
  pub all : ℕ
  pub background : ℕ
  pub running_first : ℕ
  pub running_background : ℕ
  pub waiting : ℕ

abbrev pub new_match_limiter : MatchLimiter
new_match_limiter = record {
  all = 0;
  background = 0;
  running_first = 0;
  running_background = 0;
  waiting = 0;
}

abbrev pub all_slots : ℕ
all_slots = 4

abbrev pub background_slots : ℕ
background_slots = 3

-- The steps of `acquire` and of a release: a background search first reserves, then enters or, when
-- its context ends, gives up; a first track's search only enters. One that gives up before it has
-- reserved anything changes nothing.
pub data Action : Type 0 where
  reserve give_up enter_background enter_first leave_background leave_first : Action

unfoldable pub act : Action → MatchLimiter → Option MatchLimiter
act reserve l =
    if ltb l.background background_slots
    then some (record l { background = l.background + 1; waiting = l.waiting + 1 })
    else none
act give_up l =
    if ltb 0 l.waiting
    then some (record l { background = l.background - 1; waiting = l.waiting - 1 })
    else none
act enter_background l =
    if ltb 0 l.waiting
    then (if ltb l.all all_slots
        then some (record l {
          all = l.all + 1;
          waiting = l.waiting - 1;
          running_background = l.running_background + 1;
        })
        else none)
    else none
act enter_first l =
    if ltb l.all all_slots
    then some (record l { all = l.all + 1; running_first = l.running_first + 1 })
    else none
act leave_background l =
    if ltb 0 l.running_background
    then some (record l {
      all = l.all - 1;
      background = l.background - 1;
      running_background = l.running_background - 1;
    })
    else none
act leave_first l =
    if ltb 0 l.running_first
    then some (record l { all = l.all - 1; running_first = l.running_first - 1 })
    else none

-- A sequence of actions, none where one of them is not possible.
unfoldable pub run_actions : List Action → MatchLimiter → Option MatchLimiter
unfolding act
run_actions [] l = some l
run_actions (a ∷ actions) l = elim (act a l) [ none ↦ none | some m ↦ run_actions actions m ]
