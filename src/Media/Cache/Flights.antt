-- ===== src/Media/Cache/Flights.antt =====
-- internal/media/cache.go (resolveValid): concurrent misses of one key share one search. The map
-- of flights is a function; a flight is known by its place among all that were ever started, since
-- its waiters keep it after it has left the map. Its key is the one its goroutine holds.
pub mod Invariant
pub mod Single
use whiterun_music_bot.Base.{
  ℕ, ◌+◌, ◌-◌, Bool, true, false, ◌&&◌, Option, none, some, List, [], ◌∷◌, ◌++◌, String, str_eq,
  length, get_elem?, set, ltb, ◌==◌, if◌then◌else◌,
}
use whiterun_music_bot.Media.Cache.{Resolved, CacheEntry, find, put}

-- What a search ends with: a track or an error.
pub data SearchResult : Type 0 where
  resolved : Resolved → SearchResult
  search_fails : SearchResult

pub record SearchFlight : Type 0 where
  pub key : String
  pub waiters : ℕ
  pub canceled : Bool
  pub result : Option SearchResult

pub record SearchCache : Type 0 where
  pub entries : List CacheEntry
  pub flights : String → Option ℕ
  pub started : List SearchFlight

abbrev pub set_key : String → Option ℕ → (String → Option ℕ) → String → Option ℕ
set_key key v m k = if str_eq key k then v else m k

-- What a call of resolveValid has after its first section.
pub data Entered : Type 0 where
  ended_before : Entered
  hit : Resolved → Entered
  waits_for : ℕ → Entered

-- A flight with its first waiter.
abbrev pub new_flight : String → SearchFlight
new_flight key = record { key = key; waiters = 1; canceled = false; result = none }

-- A miss: the flight of the key, or a new one, gets a waiter.
unfoldable pub join_flight : String → SearchCache → Option ℕ → SearchCache × Entered
join_flight key c none = (
  record c {
    flights = set_key key (some (length c.started)) c.flights;
    started = c.started ++ new_flight key ∷ [];
  },
  waits_for (length c.started),
)
join_flight key c (some id) = elim (get_elem? c.started id) [
  | none ↦ (c, ended_before)
  | some f ↦
      (record c { started = set c.started id (record f { waiters = f.waiters + 1 }) }, waits_for id)
]

-- The first section; `ended` is that the caller's context is done, `valid` its test of a track.
unfoldable pub enter_search :
    Bool → (Resolved → Bool) → String → ℕ → SearchCache → SearchCache × Entered
unfolding join_flight
enter_search ended valid key now c =
    let miss = join_flight key c (c.flights key) in
    if ended then (c, ended_before) else elim (find key c.entries) [
      | none ↦ miss
      | some e ↦ if ltb now e.expires && valid e.value then (c, hit e.value) else miss
    ]

abbrev pub is_flight : Option ℕ → ℕ → Bool
is_flight none id = false
is_flight (some i) id = i == id

-- What a finished search leaves in the cache, while its flight is in the map.
unfoldable pub keep_result : SearchResult → Bool → String → ℕ → List CacheEntry → List CacheEntry
keep_result search_fails canceled key now es = es
keep_result (resolved r) canceled key now es = if canceled then es else put key r now es

-- The goroutine's section when the search returns.
unfoldable pub complete : ℕ → SearchFlight → SearchResult → ℕ → SearchCache → SearchCache
unfolding keep_result
complete id f r now c =
    let done = set c.started id (record f { result = some r }) in
    if is_flight (c.flights f.key) id
    then record {
      entries = keep_result r f.canceled f.key now c.entries;
      flights = set_key f.key none c.flights;
      started = done;
    }
    else record c { started = done }

-- The deferred section of a waiter: the last one cancels the search.
unfoldable pub leave_flight : ℕ → SearchFlight → SearchCache → SearchCache
leave_flight id f c =
    let g = record f { waiters = f.waiters - 1 } in
    if g.waiters == 0
    then record c {
      flights = if is_flight (c.flights f.key) id then set_key f.key none c.flights else c.flights;
      started = set c.started id (record g { canceled = true });
    }
    else record c { started = set c.started id g }
