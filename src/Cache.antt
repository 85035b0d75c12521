-- ===== src/Cache.antt =====
-- internal/cache/cache.go: LocalCache, the tier in the process. The map is a list with one item a key; the
-- order in which Go ranges over it is the list's. The lock makes Set, Delete and a sweep one step each. `now` is the
-- reading of time.Now().
pub mod Forgetting
pub mod History
use video_streaming_service.Common.{
  ℕ, ◌+◌, Bool, true, false, not, ◌&&◌, List, [], ◌∷◌, Option, none, some, String, str_eq, length,
  ltb, leb, if◌then◌else◌,
}
use video_streaming_service.Common.Rows.{find, without}
use video_streaming_service.Domain.User.{Time}

-- `cacheItem`, with its key; a value is a sequence of bytes.
pub record CacheItem : Type 0 where
  pub key : String
  pub value : List ℕ
  pub expires_at : Time

abbrev pub has_key : String → CacheItem → Bool
has_key key item = str_eq item.key key

-- `now.After(i.expiresAt)`
unfoldable pub expired : Time → CacheItem → Bool
expired now item = ltb item.expires_at now

abbrev pub answer_of : Time → Option CacheItem → Option (List ℕ)
answer_of now none = none
answer_of now (some item) = if ltb item.expires_at now then none else some item.value

unfoldable pub delete : String → List CacheItem → List CacheItem
delete key items = without (has_key key) items

unfoldable pub drop_expired : Time → String → Option CacheItem → List CacheItem → List CacheItem
unfolding expired delete
drop_expired now key none items = items
drop_expired now key (some item) items = if expired now item then delete key items else items

-- The value, if the key is there and has not expired; an expired item is dropped.
unfoldable pub get : Time → String → List CacheItem → Option (List ℕ) × List CacheItem
unfolding drop_expired
get now key items =
    let item = find (has_key key) items in (answer_of now item, drop_expired now key item items)

-- The item nearest to its expiry, among the best so far and the rest.
unfoldable pub nearest : Option CacheItem → List CacheItem → Option CacheItem
nearest best [] = best
nearest none (x ∷ xs) = nearest (some x) xs
nearest (some b) (x ∷ xs) = nearest (if ltb x.expires_at b.expires_at then some x else some b) xs

unfoldable pub remove_victim : Option CacheItem → List CacheItem → List CacheItem
unfolding delete
remove_victim none items = items
remove_victim (some victim) items = delete victim.key items

unfoldable pub evict_oldest : List CacheItem → List CacheItem
unfolding nearest remove_victim
evict_oldest items = remove_victim (nearest none items) items

abbrev pub is_absent : Option CacheItem → Bool
is_absent none = true
is_absent (some item) = false

-- Only a new key can make the cache grow.
unfoldable pub make_room : ℕ → String → List CacheItem → List CacheItem
unfolding evict_oldest
make_room max key items =
    if is_absent (find (has_key key) items) && leb max (length items)
    then evict_oldest items
    else items

unfoldable pub set : ℕ → Time → String → List ℕ → ℕ → List CacheItem → List CacheItem
unfolding make_room
set max now key value ttl items =
    record { key = key; value = value; expires_at = now + ttl }
    ∷ without (has_key key) (make_room max key items)

-- One tick of the goroutine that sweeps the cache.
unfoldable pub sweep : Time → List CacheItem → List CacheItem
unfolding expired
sweep now items = without (expired now) items
