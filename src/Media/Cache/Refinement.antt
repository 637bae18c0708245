-- ===== src/Media/Cache/Refinement.antt =====
-- The cache against a map whose values have a time until which they can be seen.
use whiterun_music_bot.Base.{
  ℕ, ◌≤◌, ◌≡◌, refl, sym, ◌∙◌, ap, ◌⊎◌, inl, inr, arith, true, false, Option, none, some, List, [],
  ◌∷◌, String, str_eq, eq_iff, length, ltb, leb, Bool-cases, Option-cases, leb→le, if◌then◌else◌,
}
use whiterun_music_bot.Media.Cache.{
  Resolved, CacheEntry, find, delete, fresh, oldest, evict, make_room, expiry, put, get, get_entry,
  invalidate, search_cache_limit,
}
use whiterun_music_bot.Media.Cache.Laws.{
  IsCache, Distinct, alive, find-delete, find-fresh, fresh-Distinct, oldest-expires, find-same,
  str_eq_refl, str_eq-swap, put-IsCache,
}

-- What a caller sees under a key at a time.
abbrev pub value_of : Option CacheEntry → Option Resolved
value_of none = none
value_of (some e) = some e.value

unfoldable pub seen : List CacheEntry → String → ℕ → Option Resolved
seen es key now = (get key now es).1

get_entry-seen :
    (es : List CacheEntry) (key : String) (now : ℕ) (o : Option CacheEntry)
    → (get_entry key now es o).1 ≡ value_of (alive now o)
unfolding get_entry
get_entry-seen es key now none = refl
get_entry-seen es key now (some e) = elim (Bool-cases (ltb now e.expires)) [
  | inl f ↦ rw f refl
  | inr f ↦ rw f refl
]

seen-find :
    (es : List CacheEntry) (key : String) (now : ℕ)
    → seen es key now ≡ value_of (alive now (find key es))
unfolding seen get
seen-find es key now = get_entry-seen es key now (find key es)

oldest-key :
    (b : CacheEntry) (es : List CacheEntry)
    → Distinct (b ∷ es)
    → find (oldest b es).key (b ∷ es) ≡ some (oldest b es)
unfolding find oldest
oldest-key b [] d = rw (str_eq_refl b.key) refl
oldest-key b (e ∷ es) d = elim (Bool-cases (ltb e.expires b.expires)) [
  | inl s ↦
      let self = oldest-key e es d.1 in
      ground (arith, s, self, d.0, find-same b.key (oldest e es).key (e ∷ es))
  | inr s ↦
      let apart : find b.key es ≡ none = ground (arith, d.0) in
      let self = oldest-key b es (apart, d.1.1) in
      ground (arith, s, self, d.1.0, find-same e.key (oldest b es).key es)
]

-- There is an entry under a key, and it is one that expires first.
abbrev pub IsOldest : String → List CacheEntry → Type 0
IsOldest k es =
    (x : CacheEntry) × (find k es ≡ some x)
    × ((l : String) (y : CacheEntry) → find l es ≡ some y → x.expires ≤ y.expires)

-- An entry is kept, or the cache is full and the entry is one that expires first.
abbrev Kept : String → List CacheEntry → List CacheEntry → Type 0
Kept k es rest =
    (find k rest ≡ find k es)
    ⊎ ((find k rest ≡ none) × ((search_cache_limit ≤ length es) × IsOldest k es))

oldest-IsOldest :
    (k : String) (e : CacheEntry) (es : List CacheEntry)
    → Distinct (e ∷ es)
    → str_eq k (oldest e es).key ≡ true
    → IsOldest k (e ∷ es)
oldest-IsOldest k e es d s = (
  oldest e es,
  find-same k (oldest e es).key (e ∷ es) s ∙ oldest-key e es d,
  λ l y g. oldest-expires e es l y g,
)

evict-find :
    (k : String) (es : List CacheEntry)
    → Distinct es
    → (find k (evict es) ≡ find k es) ⊎ ((find k (evict es) ≡ none) × IsOldest k es)
unfolding evict
evict-find k [] d = inl refl
evict-find k (e ∷ es) d = elim (Bool-cases (str_eq k (oldest e es).key)) [
  | inl s ↦ inr (find-delete k (oldest e es).key (e ∷ es) ∙ rw s refl, oldest-IsOldest k e es d s)
  | inr s ↦ inl (find-delete k (oldest e es).key (e ∷ es) ∙ rw s refl)
]

make_room-Kept :
    (k key : String) (es : List CacheEntry) → Distinct es → Kept k es (make_room key es)
unfolding make_room
make_room-Kept k key es d = elim (Option-cases (find key es)) [
  | inr (x, f) ↦ rw (f, make_room) (inl refl)
  | inl f ↦ elim (Bool-cases (leb search_cache_limit (length es))) [
    | inr g ↦ rw (f, g, make_room) (inl refl)
    | inl g ↦
        rw (f, g, make_room)
          (elim (evict-find k es d) [
            | inl same ↦ inl same
            | inr (gone, first) ↦ inr (gone, (leb→le _ _ g, first))
          ])
  ]
]

alive-alive :
    (now later : ℕ) (o : Option CacheEntry)
    → now ≤ later
    → alive later (alive now o) ≡ alive later o
alive-alive now later none h = refl
alive-alive now later (some e) h = ground arith

str_eq-sym : (a b : String) → str_eq a b ≡ false → str_eq b a ≡ false
str_eq-sym a b e = elim (Bool-cases (str_eq b a)) [
  | inl f ↦ cc (str_eq-swap b a b f, str_eq_refl b, e)
  | inr f ↦ f
]

find-put :
    (key k : String) (r : Resolved) (now : ℕ) (es : List CacheEntry)
    → str_eq key k ≡ false
    → find k (put key r now es) ≡ find k (make_room key (fresh now es))
unfolding put find
find-put key k r now es e =
    let gone = find-delete k key (make_room key (fresh now es)) in
    rw (e, gone, str_eq-sym key k e) refl

value_of-alive :
    (e : CacheEntry) (later : ℕ)
    → value_of (alive later (some e)) ≡ (if ltb later e.expires then some e.value else none)
value_of-alive e later = ground arith

put-own :
    (key k : String) (r : Resolved) (now later : ℕ) (es : List CacheEntry)
    → str_eq key k ≡ true
    → seen (put key r now es) k later ≡ (if ltb later (expiry key r now) then some r else none)
unfolding put find
put-own key k r now later es e =
    let entry : CacheEntry = record { key = key; value = r; expires = expiry key r now } in
    let found : find k (put key r now es) ≡ some entry = rw e refl in
    seen-find (put key r now es) k later
    ∙ ap (λ o. value_of (alive later o)) found
    ∙ value_of-alive entry later

put-other :
    (key k : String) (r : Resolved) (now later : ℕ) (es : List CacheEntry)
    → IsCache es
    → now ≤ later
    → str_eq key k ≡ false
    → (seen (put key r now es) k later ≡ seen es k later)
      ⊎ ((seen (put key r now es) k later ≡ none)
          × ((search_cache_limit ≤ length (fresh now es)) × IsOldest k (fresh now es)))
put-other key k r now later es v h e =
    let there = seen-find (put key r now es) k later in
    let look = find-put key k r now es e in
    elim (make_room-Kept k key (fresh now es) (fresh-Distinct now es v.distinct)) [
      | inl same ↦
          let old = look ∙ same ∙ find-fresh k now es v.distinct in
          inl (
            there
            ∙ ap (λ o. value_of (alive later o)) old
            ∙ ap value_of (alive-alive now later (find k es) h)
            ∙ sym (seen-find es k later))
      | inr (gone, full) ↦ inr (there ∙ ap (λ o. value_of (alive later o)) (look ∙ gone), full)
    ]

put-seen :
    (key k : String) (r : Resolved) (now later : ℕ) (es : List CacheEntry)
    → IsCache es
    → now ≤ later
    → (seen (put key r now es) k later ≡ (
        if str_eq key k
        then (if ltb later (expiry key r now) then some r else none)
        else seen es k later))
      ⊎ ((str_eq key k ≡ false)
          × (seen (put key r now es) k later ≡ none)
          × ((search_cache_limit ≤ length (fresh now es)) × IsOldest k (fresh now es)))
put-seen key k r now later es v h = elim (Bool-cases (str_eq key k)) [
  | inl e ↦ inl (put-own key k r now later es e ∙ rw e refl)
  | inr e ↦ elim (put-other key k r now later es v h e) [
    | inl same ↦ inl (same ∙ rw e refl)
    | inr gone ↦ inr (e, gone.0, gone.1)
  ]
]

delete-seen :
    (key k : String) (later : ℕ) (es : List CacheEntry)
    → seen (delete key es) k later ≡ (if str_eq k key then none else seen es k later)
delete-seen key k later es = elim (Bool-cases (str_eq k key)) [
  | inl s ↦ rw (seen-find (delete key es) k later, find-delete k key es, s) refl
  | inr s ↦
      rw (seen-find (delete key es) k later, seen-find es k later, find-delete k key es, s) refl
]

-- Deleting an entry that cannot be seen.
delete-hidden :
    (key k : String) (later : ℕ) (es : List CacheEntry)
    → seen es key later ≡ none
    → seen (delete key es) k later ≡ seen es k later
delete-hidden key k later es e = elim (Bool-cases (str_eq k key)) [
  | inl s ↦
      let same = (eq_iff k key).0 s in
      delete-seen key k later es ∙ rw s (sym (ap (λ z. seen es z later) same ∙ e))
  | inr s ↦ delete-seen key k later es ∙ rw s refl
]

get_entry-keeps :
    (key k : String) (now later : ℕ) (es : List CacheEntry) (o : Option CacheEntry)
    → find key es ≡ o
    → now ≤ later
    → seen (get_entry key now es o).0 k later ≡ seen es k later
unfolding get_entry
get_entry-keeps key k now later es none f h =
    delete-hidden key k later es (seen-find es key later ∙ ap (λ o. value_of (alive later o)) f)
get_entry-keeps key k now later es (some e) f h = elim (Bool-cases (ltb now e.expires)) [
  | inl s ↦ rw s refl
  | inr s ↦
      let past : value_of (alive later (some e)) ≡ none = ground (arith, s) in
      rw s (
        delete-hidden key k later es
          (seen-find es key later ∙ ap (λ o. value_of (alive later o)) f ∙ past))
]

get-seen :
    (key k : String) (now later : ℕ) (es : List CacheEntry)
    → now ≤ later
    → (seen (get key now es).0 k later ≡ seen es k later)
      × (seen (invalidate key es) k later ≡ (if str_eq k key then none else seen es k later))
unfolding get
get-seen key k now later es h =
    (get_entry-keeps key k now later es (find key es) refl h, delete-seen key k later es)

-- The cache is a map from keys to values with a time until which they are seen. After a put the
-- key shows its track until its expiry, whatever the cache held, and every other key what it did,
-- unless the cache was full and there was an entry under that other key that expires first: then it
-- may show nothing. A lookup changes what
-- no key shows, and an invalidation only takes away what its key shows. A put keeps the keys
-- distinct and the entries at most 256.
pub seen_lem :
    (key k : String) (r : Resolved) (now later : ℕ) (es : List CacheEntry)
    → IsCache es
    → now ≤ later
    → IsCache (put key r now es)
      × ((seen (put key r now es) k later ≡ (
            if str_eq key k
            then (if ltb later (expiry key r now) then some r else none)
            else seen es k later))
          ⊎ ((str_eq key k ≡ false)
              × (seen (put key r now es) k later ≡ none)
              × ((search_cache_limit ≤ length (fresh now es)) × IsOldest k (fresh now es))))
      × (seen (get key now es).0 k later ≡ seen es k later)
      × (seen (invalidate key es) k later ≡ (if str_eq k key then none else seen es k later))
seen_lem key k r now later es v h =
    let (kept, gone) = get-seen key k now later es h in
    (put-IsCache key r now es v, put-seen key k r now later es v h, kept, gone)
