-- ===== src/Player/Coordinator/Ends.antt =====
-- How a coordinator ends once its job is canceled.
use whiterun_music_bot.Base.{
  ℕ, zero, suc, ◌+◌, ◌≤◌, ◌<◌, ◌≡◌, refl, ◌⊎◌, inl, inr, Bool, true, false, Option, none, some,
  List, [], ◌∷◌, arith, ◌==◌, leb, if◌then◌else◌, Option-cases, is_some, length,
}
use mathlib.Core.Option
use whiterun_music_bot.Player.State.{GuildPlayer}
use whiterun_music_bot.Player.Collection.{Resolution, window, unresolved}
use whiterun_music_bot.Player.Collection.Laws.{end_job_lem}
use whiterun_music_bot.Player.Coordinator.{
  World, Coordinator, tick, record_at, after_commit, commit_at, advance, hold, receive_result,
  receive_all, open_round, round, publish_first,
}
use whiterun_music_bot.Player.Coordinator.Run.{
  try_first, first_track, FirstTrack, missing, gone, unfinished, at_index, Verdict, again, next,
  over, found, is_empty, all_rounds, after_first, close_job, run,
}

after_commit-clock :
    (r : Resolution) (s : Coordinator) (c : GuildPlayer × Bool)
    → (after_commit r s c).clock ≡ s.clock
unfolding after_commit
after_commit-clock r s (p, true) = refl
after_commit-clock r s (p, false) = refl

module _ (w : World) (id : ℕ) where
  commit_at-clock : (r : Resolution) (s : Coordinator) → (commit_at w id r s).clock ≡ s.clock + 1
  unfolding commit_at tick
  commit_at-clock r s = after_commit-clock r (tick w s) _

  advance-clock : (is : List ℕ) (s : Coordinator) → s.clock ≤ (advance w id is s).clock
  unfolding advance tick
  advance-clock [] s = omega arith
  advance-clock (i ∷ is) s = elim (Option-cases (s.buffered i)) [
    | inl e ↦ rw (e, advance) (omega arith)
    | inr (r, e) ↦
        let looked : Coordinator = tick w (record s { waiting = i ∷ is }) in
        let rest = advance-clock is (commit_at w id r looked) in
        let here = commit_at-clock r looked in rw (e, advance) (ground (arith, rest, here))
  ]

  receive_result-clock :
      (r : Resolution) (s : Coordinator) → s.clock ≤ (receive_result w id r s).clock
  unfolding receive_result record_at tick
  receive_result-clock r s =
      ground (arith, advance-clock s.waiting (hold r (record_at w id r (tick w s))))

  receive_all-clock :
      (is : List ℕ) (rs : List Resolution) (s : Coordinator)
      → s.clock ≤ (receive_all w id is rs s).clock
  unfolding receive_all tick
  receive_all-clock [] rs s = omega arith
  receive_all-clock (i ∷ is) [] s = omega arith
  receive_all-clock (i ∷ is) (r ∷ rs) s =
      ground (arith, receive_result-clock r s, receive_all-clock is rs (receive_result w id r s))

  receive_result_stops :
      (r : Resolution) (s : Coordinator)
      → (w s.clock).ended ≡ true
      → (receive_result w id r s).stopped ≡ true
  unfolding receive_result tick
  receive_result_stops r s h = ground arith

  round_stops :
      (ws : List ℕ) (rs : List Resolution) (s : Coordinator)
      → (w s.clock).ended ≡ true
      → (is_empty ws ≡ true) ⊎ ((round w id ws rs s).stopped ≡ true)
  unfolding round open_round receive_all
  round_stops [] rs s h = inl refl
  round_stops (i ∷ is) [] s h = inr refl
  round_stops (i ∷ is) (r ∷ rs) s h =
      inr (ground (arith, receive_result_stops r (open_round (i ∷ is) s) h))

-- Whether the first phase came to an end.
is_over : Coordinator × FirstTrack → Bool
is_over (s, unfinished) = false
is_over (s, missing) = true
is_over (s, gone) = true
is_over (s, at_index i) = true

-- One turn of a loop that ends by a test or goes on.
some_or :
    {A : Type 0} (b : Bool) (x : A) (y : Option A)
    → (b ≡ true) ⊎ (is_some y ≡ true)
    → is_some (if b then some x else y) ≡ true
some_or true x y h = refl
some_or false x y (inl h) = cc
some_or false x y (inr h) = h

some_unless :
    {A : Type 0} (b : Bool) (x y : Option A)
    → is_some x ≡ true
    → (b ≡ true) ⊎ (is_some y ≡ true)
    → is_some (if b then x else y) ≡ true
some_unless true x y h k = h
some_unless false x y h (inl k) = cc
some_unless false x y h (inr k) = k

later_or : {P Q R : Type 0} → P ⊎ Q → (Q → R) → P ⊎ R
later_or (inl p) f = inl p
later_or (inr q) f = inr (f q)

module _ (w : World) (id last : ℕ) (canceled : (k : ℕ) → last ≤ k → (w k).ended ≡ true)
    (search : ℕ → List ℕ → List Resolution) where
  rounds_end :
      (fuel : ℕ) (s : Coordinator)
      → last ≤ s.clock + fuel
      → is_some (all_rounds w id search (suc fuel) s) ≡ true
  unfolding all_rounds tick
  rounds_end zero s h = some_or (unresolved id (tick w s).player.queue == 0) _ _ (
      inr (
        some_unless (is_empty (window id (tick w s).player)) _ _
          (some_or (tick w (tick w s)).ended _ _ (inl (canceled (s.clock + 1) (omega arith))))
          (later_or
            (round_stops w id (window id (tick w s).player)
              (search (tick w s).clock (window id (tick w s).player)) (tick w s)
              (canceled (s.clock + 1) (omega arith)))
            λ e. some_or _ _ _ (inl e))))
  rounds_end (suc fuel) s h =
      let ws : List ℕ = window id (tick w s).player in
      let rs : List Resolution = search (tick w s).clock ws in
      let grows = receive_all-clock w id ws rs (open_round ws (tick w s)) in
      some_or (unresolved id (tick w s).player.queue == 0) _ _ (
        inr (
          some_unless (is_empty ws) _ _
            (some_or (tick w (tick w s)).ended _ _
              (inr (rounds_end fuel (tick w (tick w s)) (omega arith))))
            (inr (
              some_or (round w id ws rs (tick w s)).stopped _ _ (
                inr (
                  rounds_end fuel (round w id ws rs (tick w s))
                    (unfold round open_round in omega (arith, grows))))))))

next_turn :
    (total i : ℕ) (b : Bool) (v : Verdict) (s t : Coordinator)
    (retried moved : Coordinator × FirstTrack)
    → (v ≡ over) ⊎ ((is_over retried ≡ true) × (is_over moved ≡ true))
    → is_over (
        if b
        then (s, missing)
        else elim v [ again ↦ retried | next ↦ moved | over ↦ (t, gone) | found ↦ (t, at_index i) ])
      ≡ true
unfolding is_over
next_turn total i true v s t x y h = refl
next_turn total i false again s t x y (inl e) = cc
next_turn total i false next s t x y (inl e) = cc
next_turn total i false over s t x y h = refl
next_turn total i false found s t x y h = refl
next_turn total i false again s t x y (inr (p, q)) = p
next_turn total i false next s t x y (inr (p, q)) = q

module _ (w : World) (id last : ℕ) (canceled : (k : ℕ) → last ≤ k → (w k).ended ≡ true) where
  try_first-clock :
      (total i : ℕ) (r : Resolution) (s : Coordinator)
      → s.clock < (try_first w id total i r s).0.clock
  unfolding try_first tick record_at publish_first
  try_first-clock total i r s =
      ground (arith, commit_at-clock w id r (record_at w id r (tick w (tick w s))))

  try_first_stops :
      (total i : ℕ) (r : Resolution) (s : Coordinator)
      → last ≤ s.clock
      → (try_first w id total i r s).1 ≡ over
  unfolding try_first tick
  try_first_stops total i r s h = ground (arith, canceled s.clock h)

  first_track_ends :
      (total i : ℕ) (r : Resolution) (rs : List Resolution) (s : Coordinator)
      → last ≤ s.clock + length rs
      → is_over (first_track w id total i (r ∷ rs) s) ≡ true
  unfolding first_track
  first_track_ends total i r [] s h =
      next_turn total i (leb total i) _ s _ _ _ (inl (try_first_stops total i r s (omega arith)))
  first_track_ends total i r (q ∷ rs) s h =
      let grows = try_first-clock total i r s in
      next_turn total i (leb total i) (try_first w id total i r s).1 s
        (try_first w id total i r s).0 _ _
        (inr (
          first_track_ends total i q rs (try_first w id total i r s).0 (omega (arith, grows)),
          first_track_ends total (i + 1) q rs (try_first w id total i r s).0 (omega (arith, grows)),
        ))

after_first_ends :
    (w : World) (id total last : ℕ)
    → ((k : ℕ) → last ≤ k → (w k).ended ≡ true)
    → (search : ℕ → List ℕ → List Resolution) (fuel : ℕ) (f : Coordinator × FirstTrack)
    → last ≤ fuel
    → is_over f ≡ true
    → is_some (after_first w id total search (suc fuel) f) ≡ true
unfolding after_first is_over
after_first_ends w id total last canceled search fuel (s, missing) h o = refl
after_first_ends w id total last canceled search fuel (s, gone) h o = refl
after_first_ends w id total last canceled search fuel (s, unfinished) h o = cc
after_first_ends w id total last canceled search fuel (s, at_index i) h o =
    some_or (i + 1 == total) s _ (inr (rounds_end w id last canceled search fuel s (omega arith)))

close_job_lem :
    (w : World) (id : ℕ) (s : Coordinator)
    → (unresolved id (close_job w id s).player.queue ≡ 0)
      × (is_some (close_job w id s).first ≡ true)
unfolding close_job publish_first
close_job_lem w id s = ((end_job_lem id (tick w s).player).0, ground arith)

closed :
    (w : World) (id : ℕ) (o : Option Coordinator)
    → is_some o ≡ true
    → (t : Coordinator) × (Option.map (close_job w id) o ≡ some t)
      × (unresolved id t.player.queue ≡ 0)
      × (is_some t.first ≡ true)
closed w id none h = cc
closed w id (some s) h =
    (close_job w id s, refl, (close_job_lem w id s).0, (close_job_lem w id s).1)

-- Once a job's context has ended for good, its coordinator ends, whatever it was doing, whatever its
-- searches bring and whatever others do: `last` looks at the shared state after its start, and as many
-- searches of the first phase and rounds, are enough. It leaves none of the job's positions unresolved
-- in the queue, and who waits for the first track has been told of something.
pub run_ends :
    (w : World) (id total last : ℕ) (firsts : List Resolution)
    → (search : ℕ → List ℕ → List Resolution) (fuel : ℕ) (s : Coordinator)
    → ((k : ℕ) → last ≤ k → (w k).ended ≡ true)
    → last < length firsts
    → last < fuel
    → (t : Coordinator) × (run w id total firsts search fuel s ≡ some t)
      × (unresolved id t.player.queue ≡ 0)
      × (is_some t.first ≡ true)
unfolding run
run_ends w id total last [] search fuel s canceled h l = absurd (omega arith)
run_ends w id total last (r ∷ rs) search zero s canceled h l = absurd (omega arith)
run_ends w id total last (r ∷ rs) search (suc fuel) s canceled h l = closed w id _ (
    after_first_ends w id total last canceled search fuel (first_track w id total 0 (r ∷ rs) s)
      (omega arith) (first_track_ends w id last canceled total 0 r rs s (omega arith)))
