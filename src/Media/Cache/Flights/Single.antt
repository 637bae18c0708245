-- ===== src/Media/Cache/Flights/Single.antt =====
-- At most one live search runs under a key, in every order of the callers' and searches' sections.
use whiterun_music_bot.Base.{
  ℕ, ◌+◌, ◌-◌, ◌<◌, ◌≡◌, refl, sym, ◌∙◌, ap, Bool, true, false, not, ◌&&◌, Option, none, some, inl,
  inr, arith, String, length, get_elem?, ltb, ◌==◌, is_some, length-set, Bool-cases, Option-cases,
}
use whiterun_music_bot.Media.Cache.{Resolved, find}
use whiterun_music_bot.Media.Cache.Flights.{
  SearchResult, SearchFlight, SearchCache, join_flight, enter_search, is_flight, complete,
  leave_flight, waits_for,
}
use whiterun_music_bot.Media.Cache.Flights.Invariant.{
  Step, enters, completes, leaves, Reach, at_start, then_step, is_live, Inv, empty-Inv, update-Inv,
  drop-Inv, start-Inv, some_inj,
}

join_flight-Inv :
    (key : String) (c : SearchCache) (o : Option ℕ)
    → Inv c
    → c.flights key ≡ o
    → Inv (join_flight key c o).0
unfolding join_flight
join_flight-Inv key c none v e = start-Inv c key v e
join_flight-Inv key c (some id) v e =
    let (f, (there, (alive, (named, waited)))) = v.mapped key id e in
    rw (there, join_flight)
      (update-Inv c id f (record f { waiters = f.waiters + 1 }) v there refl refl (omega arith))

enter_search-Inv :
    (ended : Bool) (valid : Resolved → Bool) (key : String) (now : ℕ) (c : SearchCache)
    → Inv c
    → Inv (enter_search ended valid key now c).0
unfolding enter_search
enter_search-Inv true valid key now c v = v
enter_search-Inv false valid key now c v = elim (Option-cases (find key c.entries)) [
  | inl n ↦ rw (n, enter_search) (join_flight-Inv key c (c.flights key) v refl)
  | inr (e, n) ↦ elim (Bool-cases (ltb now e.expires && valid e.value)) [
    | inl h ↦ rw (n, h, enter_search) v
    | inr h ↦ rw (n, h, enter_search) (join_flight-Inv key c (c.flights key) v refl)
  ]
]

complete-Inv :
    (id : ℕ) (f : SearchFlight) (r : SearchResult) (now : ℕ) (c : SearchCache)
    → Inv c
    → get_elem? c.started id ≡ some f
    → Inv (complete id f r now c)
unfolding complete
complete-Inv id f r now c v e = elim (Bool-cases (is_flight (c.flights f.key) id)) [
  | inl s ↦ rw s (drop-Inv c _ id f (record f { result = some r }) v e refl refl (λ key. rw s refl))
  | inr s ↦ rw s (drop-Inv c _ id f (record f { result = some r }) v e refl refl (λ key. rw s refl))
]

canceled-dead : (r : Option SearchResult) → (not (is_some r) && not true) ≡ false
canceled-dead none = refl
canceled-dead (some r) = refl

positive : (n : ℕ) → (n == 0) ≡ false → 0 < n
positive n e = ground arith

leave_flight-Inv :
    (id : ℕ) (f : SearchFlight) (c : SearchCache)
    → Inv c
    → get_elem? c.started id ≡ some f
    → Inv (leave_flight id f c)
unfolding leave_flight
leave_flight-Inv id f c v e = elim (Bool-cases (f.waiters - 1 == 0)) [
  | inl z ↦
      let g = record f { waiters = f.waiters - 1; canceled = true } in
      elim (Bool-cases (is_flight (c.flights f.key) id)) [
        | inl s ↦
            rw (z, s) (drop-Inv c _ id f g v e (canceled-dead f.result) refl (λ key. rw s refl))
        | inr s ↦
            rw (z, s) (drop-Inv c _ id f g v e (canceled-dead f.result) refl (λ key. rw s refl))
      ]
  | inr z ↦ rw z (
      update-Inv c id f (record f { waiters = f.waiters - 1 }) v e refl refl
        (positive (f.waiters - 1) z))
]

Step-Inv : {c d : SearchCache} → Step c d → Inv c → Inv d
Step-Inv (enters {c} ended valid key now) v = enter_search-Inv ended valid key now c v
Step-Inv (completes {c} id f r now e n) v = complete-Inv id f r now c v e
Step-Inv (leaves {c} id f e w) v = leave_flight-Inv id f c v e

Reach-Inv : {c : SearchCache} → Reach c → Inv c
Reach-Inv at_start = empty-Inv
Reach-Inv (then_step r s) = Step-Inv s (Reach-Inv r)

-- In every reachable cache two searches of one key that still run, and that nobody has given up,
-- are the same search, and somebody waits for it.
pub live-single :
    (c : SearchCache) (i j : ℕ) (f g : SearchFlight)
    → Reach c
    → get_elem? c.started i ≡ some f
    → get_elem? c.started j ≡ some g
    → is_live f ≡ true
    → is_live g ≡ true
    → f.key ≡ g.key
    → (i ≡ j) × (0 < f.waiters)
live-single c i j f g r a b l m k =
    let v = Reach-Inv r in
    let at_i = v.live i f a l in
    let at_j = v.live j g b m in
    let (h, (there, (alive, (named, waited)))) = v.mapped f.key i at_i in
    let same : h ≡ f = some_inj h f (sym there ∙ a) in
    (some_inj i j (sym at_i ∙ ap c.flights k ∙ at_j), rw (← same) waited)

join_flight-live :
    (key : String) (c : SearchCache) (i : ℕ) (f : SearchFlight)
    → get_elem? c.started i ≡ some f
    → ((join_flight key c (some i)).1 ≡ waits_for i)
      × (length (join_flight key c (some i)).0.started ≡ length c.started)
unfolding join_flight
join_flight-live key c i f a =
    rw (a, join_flight) (refl, length-set c.started i (record f { waiters = f.waiters + 1 }))

-- A caller that misses while a search of its key runs waits for that search and starts none.
enter_search-live :
    (c : SearchCache) (i : ℕ) (f : SearchFlight) (valid : Resolved → Bool) (now : ℕ)
    → Reach c
    → get_elem? c.started i ≡ some f
    → is_live f ≡ true
    → find f.key c.entries ≡ none
    → ((enter_search false valid f.key now c).1 ≡ waits_for i)
      × (length (enter_search false valid f.key now c).0.started ≡ length c.started)
unfolding enter_search
enter_search-live c i f valid now r a l n =
    let mapped = (Reach-Inv r).live i f a l in
    rw (n, enter_search) (rw mapped (join_flight-live f.key c i f a))
