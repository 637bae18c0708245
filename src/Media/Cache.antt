-- ===== src/Media/Cache.antt =====
-- internal/media/cache.go: the bounded cache of resolved tracks, and the searches that are shared
-- by the callers of one key. The map is a list of entries in the order that Go happens to visit
-- them. A method under the mutex is a function on the cache; what a search returns is an argument.
-- The nil cache, which only forwards to the work, is left out.
pub mod Laws
pub mod Refinement
pub mod Flights
use whiterun_music_bot.Base.{
  ℕ, ◌+◌, ◌*◌, ◌-◌, Option, none, some, List, [], ◌∷◌, String, str_eq, length, ltb, leb,
  if◌then◌else◌,
}
use whiterun_music_bot.Media.Track.{Track, second}
use text.Mathlib.Text.{starts_with}

abbrev pub search_cache_ttl : ℕ
search_cache_ttl = 600 * second

abbrev pub identity_lease : ℕ
identity_lease = search_cache_ttl

abbrev pub search_cache_limit : ℕ
search_cache_limit = 256

-- A track with the time of its identity proof, if it has one.
pub record Resolved : Type 0 where
  pub track : Track
  pub checked_at : Option ℕ

-- A key of the map with its cacheEntry.
pub record CacheEntry : Type 0 where
  pub key : String
  pub value : Resolved
  pub expires : ℕ

unfoldable pub find : String → List CacheEntry → Option CacheEntry
find key [] = none
find key (e ∷ es) = let rest = find key es in if str_eq e.key key then some e else rest

unfoldable pub delete : String → List CacheEntry → List CacheEntry
delete key [] = []
delete key (e ∷ es) = let rest = delete key es in if str_eq e.key key then rest else e ∷ rest

-- The entries that have not expired.
unfoldable pub fresh : ℕ → List CacheEntry → List CacheEntry
fresh now [] = []
fresh now (e ∷ es) = let rest = fresh now es in if ltb now e.expires then e ∷ rest else rest

-- The loop that looks for the entry that expires first: `best` is the one so far.
unfoldable pub oldest : CacheEntry → List CacheEntry → CacheEntry
oldest best [] = best
oldest best (e ∷ es) =
    let later = oldest best es in
    let sooner = oldest e es in if ltb e.expires best.expires then sooner else later

unfoldable pub evict : List CacheEntry → List CacheEntry
unfolding oldest delete
evict [] = []
evict (e ∷ es) = delete (oldest e es).key (e ∷ es)

unfoldable pub make_room : String → List CacheEntry → List CacheEntry
unfolding find evict
make_room key es = elim (find key es) [
  | some e ↦ es
  | none ↦ if leb search_cache_limit (length es) then evict es else es
]

abbrev pub proof_expiry : Option ℕ → ℕ → ℕ
proof_expiry none expires = expires
proof_expiry (some checked) expires =
    if ltb (checked + identity_lease) expires then checked + identity_lease else expires

unfoldable pub expiry : String → Resolved → ℕ → ℕ
expiry key r now =
    if starts_with key "video-proof:"
    then proof_expiry r.checked_at (now + search_cache_ttl)
    else now + search_cache_ttl

-- putLocked.
unfoldable pub put : String → Resolved → ℕ → List CacheEntry → List CacheEntry
unfolding fresh make_room delete expiry
put key r now es =
    record { key = key; value = r; expires = expiry key r now }
    ∷ delete key (make_room key (fresh now es))

-- get, once the key is looked up: the entries left, and the track.
unfoldable pub get_entry :
    String → ℕ → List CacheEntry → Option CacheEntry → List CacheEntry × Option Resolved
unfolding delete
get_entry key now es none = (delete key es, none)
get_entry key now es (some e) =
    if ltb now e.expires then (es, some e.value) else (delete key es, none)

unfoldable pub get : String → ℕ → List CacheEntry → List CacheEntry × Option Resolved
unfolding find get_entry
get key now es = get_entry key now es (find key es)

-- invalidate.
abbrev pub invalidate : String → List CacheEntry → List CacheEntry
invalidate = delete
