-- ===== src/Player/Coordinator.antt =====
-- internal/player/collection.go (run): the coordinator of a collection's job. It looks for the first
-- track alone, then searches a window of positions at a time with up to three workers and commits
-- their results in the window's order, in whatever order they arrive.
--
-- Between two sections under the player's mutex other goroutines act, the searches of this job
-- (Player.Resolve) among them: a `World` says at each tick of the coordinator's clock what they have
-- done to the player and whether the job's context has ended. The results of the searches are inputs,
-- in their order of arrival.
pub mod Run
pub mod Order
pub mod Filled
pub mod Complete
pub mod Ends
use whiterun_music_bot.Base.{
  ℕ, ◌+◌, Bool, true, false, Option, none, some, List, [], ◌∷◌, ◌++◌, ◌==◌, if◌then◌else◌, is_some,
}
use whiterun_music_bot.Media.Track.{Track}
use mathlib.Core.Option
use whiterun_music_bot.Player.State.{GuildPlayer}
use whiterun_music_bot.Player.Collection.{Resolution, record_result, commit}

pub record Moment : Type 0 where
  pub others : GuildPlayer → GuildPlayer
  pub ended : Bool

abbrev pub World : Type 0
World = ℕ → Moment

-- CollectionFirst, without the kinds that the horizon and the provider's wait announce.
pub record CollectionFirst : Type 0 where
  pub suspended : Bool
  pub track : Option Track
  pub position : ℕ
  pub total : ℕ
  pub skipped : ℕ
  pub failed : Bool

-- `buffered` holds what has arrived, `waiting` is indexes[frontier:], and `handed` the results that
-- were handed to a commit that lets the frontier move on, in that order; a commit that meets a blocked
-- provider does so too, although it writes nothing. `first` is what the caller of BeginCollection is told.
pub record Coordinator : Type 0 where
  pub player : GuildPlayer
  pub clock : ℕ
  pub ended : Bool
  pub first : Option CollectionFirst
  pub buffered : ℕ → Option Resolution
  pub waiting : List ℕ
  pub handed : List Resolution
  pub blocked : Bool
  pub stopped : Bool

-- The next look at the shared state.
unfoldable pub tick : World → Coordinator → Coordinator
tick w s = record s {
  player = (w s.clock).others s.player;
  ended = (w s.clock).ended;
  clock = s.clock + 1;
}

-- publishFirst: only the first announcement counts.
unfoldable pub publish_first : CollectionFirst → Coordinator → Coordinator
publish_first f s = record s { first = if is_some s.first then s.first else some f }

unfoldable pub record_at : World → ℕ → Resolution → Coordinator → Coordinator
unfolding tick
record_at w id r s = let t = tick w s in record t { player = record_result id r t.player }

unfoldable pub after_commit : Resolution → Coordinator → GuildPlayer × Bool → Coordinator
after_commit r s (p, true) = record s { player = p; handed = s.handed ++ r ∷ [] }
after_commit r s (p, false) = record s { player = p; stopped = true }

-- One call of commit, with the one result that the coordinator hands over at a time.
unfoldable pub commit_at : World → ℕ → Resolution → Coordinator → Coordinator
unfolding tick after_commit
commit_at w id r s = let t = tick w s in after_commit r t (commit id t.ended (r ∷ []) t.player)

abbrev pub halt_round : Coordinator → Coordinator
halt_round s = record s { stopped = true }

abbrev pub block : Coordinator → Coordinator
block s = record s { blocked = true }

-- The loop that moves the frontier, over indexes[frontier:].
unfoldable pub advance : World → ℕ → List ℕ → Coordinator → Coordinator
unfolding tick commit_at
advance w id [] s = record s { waiting = [] }
advance w id (i ∷ is) s = elim (s.buffered i) [
  | none ↦ record s { waiting = i ∷ is }
  | some r ↦
      let looked = tick w (record s { waiting = i ∷ is }) in
      let done = commit_at w id r looked in
      let rest = advance w id is done in
      if looked.player.provider.blocked then block looked else (if done.stopped then done else rest)
]

abbrev pub buffer : Resolution → (ℕ → Option Resolution) → ℕ → Option Resolution
buffer r f i = if i == r.index then some r else f i

abbrev pub hold : Resolution → Coordinator → Coordinator
hold r s = record s { buffered = buffer r s.buffered }

-- One result of a window's searches.
unfoldable pub receive_result : World → ℕ → Resolution → Coordinator → Coordinator
unfolding tick record_at advance
receive_result w id r s =
    let t = tick w s in
    let u = hold r (record_at w id r t) in
    if t.ended then halt_round t else (if r.blocked then block t else advance w id u.waiting u)

-- `for range indexes`: when fewer results come than were asked for, the wait ends with the context.
unfoldable pub receive_all : World → ℕ → List ℕ → List Resolution → Coordinator → Coordinator
unfolding tick receive_result
receive_all w id [] rs s = s
receive_all w id (i ∷ is) [] s = halt_round (tick w s)
receive_all w id (i ∷ is) (r ∷ rs) s =
    let rest = receive_all w id is rs (receive_result w id r s) in
    if (receive_result w id r s).stopped then receive_result w id r s else rest

-- A round's own state is new.
unfoldable pub open_round : List ℕ → Coordinator → Coordinator
open_round indexes s = record s {
  buffered = λ (i : ℕ). none;
  waiting = indexes;
  handed = [];
  blocked = false;
}

-- A round over the given window, for the results of its searches as they arrive.
unfoldable pub round : World → ℕ → List ℕ → List Resolution → Coordinator → Coordinator
unfolding open_round receive_all
round w id indexes results s = receive_all w id indexes results (open_round indexes s)
