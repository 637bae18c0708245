-- ===== src/Media/Limiter/Room.antt =====
-- What the limiter keeps free.
use whiterun_music_bot.Base.{
  ◌+◌, ◌≤◌, ◌≡◌, ◌⊎◌, refl, true, Option, none, some, List, [], ◌∷◌, arith, is_some,
}
use whiterun_music_bot.Media.Limiter.{
  MatchLimiter, new_match_limiter, all_slots, background_slots, Action, reserve, give_up,
  enter_background, enter_first, leave_background, leave_first, act, run_actions,
}

record IsBounded (l : MatchLimiter) : Type 0 where
  all_counted : l.all ≡ l.running_first + l.running_background
  background_counted : l.background ≡ l.waiting + l.running_background
  all_bounded : l.all ≤ all_slots
  background_bounded : l.background ≤ background_slots

act-IsBounded : (a : Action) (l m : MatchLimiter) → act a l ≡ some m → IsBounded l → IsBounded m
unfolding act
act-IsBounded reserve l m h b = ground arith
act-IsBounded give_up l m h b = ground arith
act-IsBounded enter_background l m h b = ground arith
act-IsBounded enter_first l m h b = ground arith
act-IsBounded leave_background l m h b = ground arith
act-IsBounded leave_first l m h b = ground arith

possible :
    (o : Option MatchLimiter) (f : MatchLimiter → Option MatchLimiter) (m : MatchLimiter)
    → (elim o [ none ↦ none | some s ↦ f s ]) ≡ some m
    → (s : MatchLimiter) × (o ≡ some s) × (f s ≡ some m)
possible none f m h = ground arith
possible (some s) f m h = (s, refl, h)

empty-IsBounded : IsBounded new_match_limiter
empty-IsBounded = record {
  all_counted = omega arith;
  background_counted = omega arith;
  all_bounded = omega arith;
  background_bounded = omega arith;
}

run_actions-IsBounded :
    (actions : List Action) (l m : MatchLimiter)
    → run_actions actions l ≡ some m
    → IsBounded l
    → IsBounded m
unfolding run_actions
run_actions-IsBounded [] l m h b = ground arith
run_actions-IsBounded (a ∷ actions) l m h b =
    let s = possible (act a l) (run_actions actions) m h in
    run_actions-IsBounded actions s.0 m s.2 (act-IsBounded a l s.0 s.1 b)

-- However searches come, wait, give up and end: at most four run, at most three of them in the
-- background, a background search that waits holds a background slot, and a first track's search can
-- start at once unless another one of its kind is running.
pub limiter_room :
    (actions : List Action) (l : MatchLimiter)
    → run_actions actions new_match_limiter ≡ some l
    → (l.running_first + l.running_background ≤ all_slots)
      × (l.waiting + l.running_background ≤ background_slots)
      × ((is_some (act enter_first l) ≡ true) ⊎ (1 ≤ l.running_first))
unfolding act
limiter_room actions l h =
    let b = run_actions-IsBounded actions new_match_limiter l h empty-IsBounded in
    ground (arith, b.all_counted, b.background_counted, b.all_bounded, b.background_bounded)
