-- ===== src/Media/Cache/Flights/Invariant.antt =====
-- The flights of the map are the live ones: what the sections do to them.
use whiterun_music_bot.Base.{
  ℕ, zero, suc, ◌<◌, ◌≡◌, refl, sym, ◌∙◌, ap, Bool, true, false, not, ◌&&◌, Option, none, some, ◌⊎◌,
  inl, inr, arith, List, [], ◌∷◌, ◌++◌, String, str_eq, eq_iff, length, get_elem?, set, ◌==◌,
  if◌then◌else◌, is_some, get_elem?-set, get_elem?-lt, get_elem?-append_left,
  get_elem?-append_length, ==_iff, Bool-cases,
}
use whiterun_music_bot.Media.Cache.{Resolved}
use whiterun_music_bot.Media.Cache.Flights.{
  SearchResult, SearchFlight, SearchCache, set_key, new_flight, enter_search, is_flight, complete,
  leave_flight,
}

abbrev pub empty : SearchCache
empty = record { entries = []; flights = λ k. none; started = [] }

-- One section of a caller or of a search.
pub data Step : SearchCache → SearchCache → Type 0 where
  enters :
      {c : SearchCache} (ended : Bool) (valid : Resolved → Bool) (key : String) (now : ℕ)
      → Step c (enter_search ended valid key now c).0
  completes :
      {c : SearchCache} (id : ℕ) (f : SearchFlight) (r : SearchResult) (now : ℕ)
      → get_elem? c.started id ≡ some f
      → f.result ≡ none
      → Step c (complete id f r now c)
  leaves :
      {c : SearchCache} (id : ℕ) (f : SearchFlight)
      → get_elem? c.started id ≡ some f
      → 0 < f.waiters
      → Step c (leave_flight id f c)

pub data Reach : SearchCache → Type 0 where
  at_start : Reach empty
  then_step : {c d : SearchCache} → Reach c → Step c d → Reach d

-- A search that still runs and that nobody has given up.
abbrev pub is_live : SearchFlight → Bool
is_live f = not (is_some f.result) && not f.canceled

-- The flights of the map are live and waited for, and the live flights are in the map.
pub record Inv (c : SearchCache) : Type 0 where
  pub mapped :
      (key : String) (id : ℕ)
      → c.flights key ≡ some id
      → (f : SearchFlight) × ((get_elem? c.started id ≡ some f)
          × ((is_live f ≡ true) × ((f.key ≡ key) × (0 < f.waiters))))
  pub live :
      (id : ℕ) (f : SearchFlight)
      → get_elem? c.started id ≡ some f
      → is_live f ≡ true
      → c.flights f.key ≡ some id

pub empty-Inv : Inv empty
empty-Inv = record { mapped = λ key id e. cc; live = λ id f e l. cc }

module _ {ℓ} {A : Type ℓ} where
  set-same :
      (xs : List A) (i : ℕ) (x y : A) → get_elem? xs i ≡ some x → get_elem? (set xs i y) i ≡ some y
  set-same xs i x y e = ground (arith, get_elem?-set xs i y i, get_elem?-lt xs i e)

  set-at :
      (xs : List A) (i k : ℕ) (x y : A)
      → get_elem? xs i ≡ some x
      → (k == i) ≡ true
      → (get_elem? (set xs i y) k ≡ some y) × (get_elem? xs k ≡ some x)
  set-at xs i k x y e s = rw ((==_iff k i).0 s) (set-same xs i x y e, e)

  set-other :
      (xs : List A) (i k : ℕ) (y : A) → (k == i) ≡ false → get_elem? (set xs i y) k ≡ get_elem? xs k
  set-other xs i k y e = ground (arith, get_elem?-set xs i y k)

pub some_inj {ℓ} : {A : Type ℓ} (x y : A) → some x ≡ some y → x ≡ y
some_inj x y e = cc

-- A flight that stays live, with its key and a waiter, can change.
pub update-Inv :
    (c : SearchCache) (id : ℕ) (f g : SearchFlight)
    → Inv c
    → get_elem? c.started id ≡ some f
    → g.key ≡ f.key
    → is_live g ≡ is_live f
    → 0 < g.waiters
    → Inv (record c { started = set c.started id g })
update-Inv c id f g v e k l w = record {
  mapped = λ key i m. elim (Bool-cases (i == id)) [
    | inl s ↦
        let (same, was) = set-at c.started id i f g e s in
        let (h, (there, (alive, (named, waited)))) = v.mapped key i m in
        let f_is : f ≡ h = some_inj f h (sym was ∙ there) in
        (g, (same, (l ∙ ap is_live f_is ∙ alive, (k ∙ ap (λ x. x.key) f_is ∙ named, w))))
    | inr s ↦
        let (h, (there, rest)) = v.mapped key i m in
        (h, (set-other c.started id i g s ∙ there, rest))
  ];
  live = λ i h there a. elim (Bool-cases (i == id)) [
    | inl s ↦
        let (same, was) = set-at c.started id i f g e s in
        let h_is : h ≡ g = some_inj h g (sym there ∙ same) in
        ap (λ x. c.flights x.key) h_is
        ∙ ap c.flights k
        ∙ v.live i f was (sym l ∙ sym (ap is_live h_is) ∙ a)
    | inr s ↦ v.live i h (sym (set-other c.started id i g s) ∙ there) a
  ];
}

-- The map without a flight, if it is there.
abbrev pub without : (String → Option ℕ) → String → ℕ → String → Option ℕ
without m named id key = if is_flight (m named) id && str_eq named key then none else m key

without-some :
    (m : String → Option ℕ) (named key : String) (id i : ℕ)
    → without m named id key ≡ some i
    → (m key ≡ some i) × ((is_flight (m named) id && str_eq named key) ≡ false)
without-some m named key id i e = ground arith

without-other :
    (m : String → Option ℕ) (named key : String) (id i : ℕ)
    → m key ≡ some i
    → (i == id) ≡ false
    → without m named id key ≡ some i
without-other m named key id i e n = elim (Bool-cases (str_eq named key)) [
  | inl s ↦ let same : m named ≡ some i = ap m ((eq_iff named key).0 s) ∙ e in rw (same, n) e
  | inr s ↦ ground (arith, s, e)
]

held-absurd :
    (m : String → Option ℕ) (named key : String) (id i : ℕ)
    → named ≡ key
    → m key ≡ some i
    → (i == id) ≡ true
    → (is_flight (m named) id && str_eq named key) ≡ false
    → ⊥
held-absurd m named key id i k e s n =
    let there : m named ≡ some i = ap m k ∙ e in
    let same = (eq_iff named key).1 k in
    let flight : is_flight (m named) id ≡ true = rw there s in ground (arith, flight, same, n)

true-false : true ≡ false → ⊥
true-false e = cc

-- A flight that is live no longer leaves the map.
pub drop-Inv :
    (c d : SearchCache) (id : ℕ) (f g : SearchFlight)
    → Inv c
    → get_elem? c.started id ≡ some f
    → is_live g ≡ false
    → d.started ≡ set c.started id g
    → ((key : String) → d.flights key ≡ without c.flights f.key id key)
    → Inv d
drop-Inv c d id f g v e l starts maps = record {
  mapped = λ key i m.
      let (old, kept) = without-some c.flights f.key key id i (sym (maps key) ∙ m) in
      let (h, (there, (alive, (named, waited)))) = v.mapped key i old in
      elim (Bool-cases (i == id)) [
        | inl s ↦
            let (same, was) = set-at c.started id i f g e s in
            let f_is : f ≡ h = some_inj f h (sym was ∙ there) in
            let key_is : f.key ≡ key = ap (λ x. x.key) f_is ∙ named in
            absurd (held-absurd c.flights f.key key id i key_is old s kept)
        | inr s ↦ (
          h,
          (
            ap (λ xs. get_elem? xs i) starts ∙ set-other c.started id i g s ∙ there,
            (alive, (named, waited)),
          ),
        )
      ];
  live = λ i h there a.
      let found = sym (ap (λ xs. get_elem? xs i) starts) ∙ there in
      elim (Bool-cases (i == id)) [
        | inl s ↦
            let (same, was) = set-at c.started id i f g e s in
            let h_is : h ≡ g = some_inj h g (sym found ∙ same) in
            absurd (true-false (sym a ∙ ap is_live h_is ∙ l))
        | inr s ↦
            let old = v.live i h (sym (set-other c.started id i g s) ∙ found) a in
            maps h.key ∙ without-other c.flights f.key h.key id i old s
      ];
}

set_key-other :
    (key k : String) (o : Option ℕ) (m : String → Option ℕ) {i : ℕ}
    → str_eq key k ≡ false
    → set_key key o m k ≡ some i
    → m k ≡ some i
set_key-other key k o m s e = ground (arith, s, e)

append-cases :
    (xs : List SearchFlight) (y h : SearchFlight) (i : ℕ)
    → get_elem? (xs ++ y ∷ []) i ≡ some h
    → (get_elem? xs i ≡ some h) ⊎ ((i ≡ length xs) × (y ≡ h))
append-cases [] y h zero e = inr (refl, some_inj y h e)
append-cases [] y h (suc i) e = cc
append-cases (x ∷ xs) y h zero e = inl e
append-cases (x ∷ xs) y h (suc i) e = elim (append-cases xs y h i e) [
  | inl old ↦ inl old
  | inr (n, s) ↦ inr (ap suc n, s)
]

append-old :
    (xs : List SearchFlight) (y h : SearchFlight) (i : ℕ)
    → get_elem? xs i ≡ some h
    → get_elem? (xs ++ y ∷ []) i ≡ some h
append-old xs y h i e = get_elem?-append_left xs (y ∷ []) i (get_elem?-lt xs i e) ∙ e

-- A new flight for a key that has none.
pub start-Inv :
    (c : SearchCache) (key : String)
    → Inv c
    → c.flights key ≡ none
    → Inv (record c {
      flights = set_key key (some (length c.started)) c.flights;
      started = c.started ++ new_flight key ∷ [];
    })
start-Inv c key v e = record {
  mapped = λ k i m. elim (Bool-cases (str_eq key k)) [
    | inl s ↦
        let place : length c.started ≡ i = ground (arith, s, m) in
        (
          new_flight key,
          (
            ap (get_elem? (c.started ++ new_flight key ∷ [])) (sym place)
                ∙ get_elem?-append_length c.started (new_flight key) [],
            (refl, ((eq_iff key k).0 s, omega arith)),
          ),
        )
    | inr s ↦
        let (h, (there, rest)) = v.mapped k i (set_key-other key k _ c.flights s m) in
        (h, (append-old c.started (new_flight key) h i there, rest))
  ];
  live = λ i h there a. elim (append-cases c.started (new_flight key) h i there) [
    | inl old ↦
        let was = v.live i h old a in
        elim (Bool-cases (str_eq key h.key)) [
          | inl s ↦ absurd (cc (sym e ∙ ap c.flights ((eq_iff key h.key).0 s) ∙ was))
          | inr s ↦ rw s was
        ]
    | inr (n, is_new) ↦
        let named : key ≡ h.key = ap (λ x. x.key) is_new in
        rw ((eq_iff key h.key).1 named) (ap some (sym n))
  ];
}
