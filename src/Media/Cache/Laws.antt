-- ===== src/Media/Cache/Laws.antt =====
-- The cache as a bounded map whose entries expire.
use whiterun_music_bot.Base.{
  ℕ, ◌-◌, ◌≤◌, ◌<◌, ◌≡◌, refl, ◌∙◌, ap, inl, inr, arith, true, Option, none, some, List, [], ◌∷◌,
  String, str_eq, eq_iff, length, ltb, leb, Bool-cases, Option-cases, if◌then◌else◌, is_some,
}
use whiterun_music_bot.Media.Cache.{
  Resolved, CacheEntry, find, delete, fresh, oldest, evict, make_room, put, search_cache_limit,
}

length-delete : (key : String) (es : List CacheEntry) → length (delete key es) ≤ length es
unfolding delete
length-delete key [] = omega arith
length-delete key (e ∷ es) = ground (arith, length-delete key es)

length-delete-find :
    (key : String) (es : List CacheEntry) (e : CacheEntry)
    → find key es ≡ some e
    → length (delete key es) < length es
unfolding delete find
length-delete-find key [] x h = cc
length-delete-find key (e ∷ es) x h = elim (Bool-cases (str_eq e.key key)) [
  | inl t ↦ ground (arith, t, length-delete key es)
  | inr t ↦ ground (arith, t, length-delete-find key es x (rw t at h))
]

length-fresh : (now : ℕ) (es : List CacheEntry) → length (fresh now es) ≤ length es
unfolding fresh
length-fresh now [] = omega arith
length-fresh now (e ∷ es) = ground (arith, length-fresh now es)

-- Keys are distinct.
abbrev pub Distinct : List CacheEntry → Type 0
Distinct [] = Unit {0}
Distinct (e ∷ es) = (find e.key es ≡ none) × Distinct es

-- What a cache keeps to.
pub record IsCache (es : List CacheEntry) : Type 0 where
  pub distinct : Distinct es
  pub bounded : length es ≤ search_cache_limit

pub find-same : (a k : String) (es : List CacheEntry) → str_eq a k ≡ true → find a es ≡ find k es
find-same a k es e = ap (λ s. find s es) ((eq_iff a k).0 e)

pub str_eq-swap : (a k l : String) → str_eq a k ≡ true → str_eq a l ≡ str_eq k l
str_eq-swap a k l e = ap (λ s. str_eq s l) ((eq_iff a k).0 e)

pub find-delete :
    (k key : String) (es : List CacheEntry)
    → find k (delete key es) ≡ (if str_eq k key then none else find k es)
unfolding find delete
find-delete k key [] = ground arith
find-delete k key (e ∷ es) = elim (Bool-cases (str_eq e.key k)) [
  | inl s ↦ ground (arith, s, str_eq-swap e.key k key s, find-delete k key es)
  | inr s ↦ ground (arith, s, find-delete k key es)
]

-- A lookup that sees only what has not expired.
abbrev pub alive : ℕ → Option CacheEntry → Option CacheEntry
alive now none = none
alive now (some e) = if ltb now e.expires then some e else none

pub find-fresh :
    (k : String) (now : ℕ) (es : List CacheEntry)
    → Distinct es
    → find k (fresh now es) ≡ alive now (find k es)
unfolding find fresh
find-fresh k now [] d = refl
find-fresh k now (e ∷ es) d = elim (Bool-cases (str_eq e.key k)) [
  | inl t ↦ ground (arith, t, d.0, find-same e.key k es t, find-fresh k now es d.1)
  | inr t ↦ ground (arith, t, find-fresh k now es d.1)
]

find-delete-none :
    (k key : String) (es : List CacheEntry) → find k es ≡ none → find k (delete key es) ≡ none
find-delete-none k key es e = ground (arith, find-delete k key es)

find-fresh-none :
    (k : String) (now : ℕ) (e : CacheEntry) (es : List CacheEntry)
    → Distinct es
    → find k es ≡ none
    → find k (fresh now es) ≡ none
find-fresh-none k now e es d n = ground (arith, find-fresh k now es d)

pub str_eq_refl : (k : String) → str_eq k k ≡ true
str_eq_refl k = (eq_iff k k).1 refl

delete-Distinct : (key : String) (es : List CacheEntry) → Distinct es → Distinct (delete key es)
unfolding delete
delete-Distinct key [] d = tt
delete-Distinct key (e ∷ es) d = elim (Bool-cases (str_eq e.key key)) [
  | inl s ↦ rw s (delete-Distinct key es d.1)
  | inr s ↦ rw s (find-delete-none e.key key es d.0, delete-Distinct key es d.1)
]

pub fresh-Distinct : (now : ℕ) (es : List CacheEntry) → Distinct es → Distinct (fresh now es)
unfolding fresh
fresh-Distinct now [] d = tt
fresh-Distinct now (e ∷ es) d = elim (Bool-cases (ltb now e.expires)) [
  | inl s ↦ rw s (find-fresh-none e.key now e es d.1 d.0, fresh-Distinct now es d.1)
  | inr s ↦ rw s (fresh-Distinct now es d.1)
]

find-oldest :
    (b : CacheEntry) (es : List CacheEntry) → is_some (find (oldest b es).key (b ∷ es)) ≡ true
unfolding find oldest
find-oldest b [] = rw (str_eq_refl b.key) refl
find-oldest b (e ∷ es) = elim (Bool-cases (ltb e.expires b.expires)) [
  | inl s ↦ ground (arith, s, find-oldest e es)
  | inr s ↦ ground (arith, s, find-oldest b es)
]

oldest-first : (b : CacheEntry) (es : List CacheEntry) → (oldest b es).expires ≤ b.expires
unfolding oldest
oldest-first b [] = omega arith
oldest-first b (e ∷ es) = elim (Bool-cases (ltb e.expires b.expires)) [
  | inl s ↦ ground (arith, s, oldest-first e es)
  | inr s ↦ ground (arith, s, oldest-first b es)
]

-- What is evicted expires no later than any entry.
pub oldest-expires :
    (b : CacheEntry) (es : List CacheEntry) (k : String) (x : CacheEntry)
    → find k (b ∷ es) ≡ some x
    → (oldest b es).expires ≤ x.expires
unfolding find oldest
oldest-expires b [] k x h = ground (arith, h)
oldest-expires b (e ∷ es) k x h = elim (Bool-cases (ltb e.expires b.expires)) [
  | inl s ↦ ground (arith, s, h, oldest-first e es, oldest-expires e es k x)
  | inr s ↦ ground (arith, s, h, oldest-first b es, oldest-expires b es k x)
]

length-evict : (es : List CacheEntry) → length (evict es) ≤ length es - 1
unfolding evict
length-evict [] = omega arith
length-evict (e ∷ es) = elim (Option-cases (find (oldest e es).key (e ∷ es))) [
  | inl n ↦ absurd (cc (find-oldest e es))
  | inr (x, h) ↦ omega (arith, length-delete-find (oldest e es).key (e ∷ es) x h)
]

pub make_room-Distinct :
    (key : String) (es : List CacheEntry) → Distinct es → Distinct (make_room key es)
unfolding make_room evict
make_room-Distinct key [] d = tt
make_room-Distinct key (e ∷ es) d = elim (Option-cases (find key (e ∷ es))) [
  | inr (x, h) ↦ rw (h, make_room) d
  | inl h ↦ elim (Bool-cases (leb search_cache_limit (length (e ∷ es)))) [
    | inl f ↦ rw (h, f, make_room) (delete-Distinct (oldest e es).key (e ∷ es) d)
    | inr f ↦ rw (h, f, make_room) d
  ]
]

length-make_room :
    (key : String) (es : List CacheEntry)
    → length es ≤ search_cache_limit
    → length (delete key (make_room key es)) < search_cache_limit
unfolding make_room
length-make_room key es h = elim (Option-cases (find key es)) [
  | inr (x, f) ↦ rw (f, make_room) (omega (arith, length-delete-find key es x f))
  | inl f ↦ elim (Bool-cases (leb search_cache_limit (length es))) [
    | inl g ↦ rw (f, g, make_room) (omega (arith, length-delete key (evict es), length-evict es))
    | inr g ↦ rw (f, g, make_room) (ground (arith, length-delete key es))
  ]
]

-- A put keeps the keys distinct and the entries at most 256.
pub put-IsCache :
    (key : String) (r : Resolved) (now : ℕ) (es : List CacheEntry)
    → IsCache es
    → IsCache (put key r now es)
unfolding put
put-IsCache key r now es v =
    let d = make_room-Distinct key (fresh now es) (fresh-Distinct now es v.distinct) in
    record {
      distinct = (
        find-delete key key (make_room key (fresh now es)) ∙ rw (str_eq_refl key) refl,
        delete-Distinct key (make_room key (fresh now es)) d,
      );
      bounded = length-make_room key (fresh now es) (omega (arith, length-fresh now es, v.bounded));
    }
