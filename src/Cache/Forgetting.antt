-- ===== src/Cache/Forgetting.antt =====
-- The cache forgets, and does nothing worse (internal/cache/cache.go).
use video_streaming_service.Common.{
  ℕ, suc, ◌+◌, ◌≤◌, ◌≡◌, ◌∙◌, refl, inl, inr, Bool, true, false, ◌&&◌, List, [], ◌∷◌, All, Option,
  none, some, String, str_eq, any, str_eq_iff, arith, length, ltb, leb, Bool-cases, Option-cases,
  if◌then◌else◌,
}
use video_streaming_service.Common.Rows.{find, without}
use video_streaming_service.Domain.User.{Time}
use video_streaming_service.Cache.{
  CacheItem, has_key, expired, delete, set, make_room, evict_oldest, is_absent, remove_victim,
  nearest, sweep,
}

-- What happens to the cache, in any order. Get gives up the lock between its reading and the deletion of an
-- expired item, so that deletion is a step of its own.
pub data Event : Type 0 where
  setting : String → List ℕ → ℕ → Event
  dropping : String → Event
  deleting : String → Event
  sweeping : Event

module _ (max : ℕ) where
  unfoldable pub handle : Time → Event → List CacheItem → List CacheItem
  handle now (setting key value ttl) items = set max now key value ttl items
  handle now (dropping key) items = delete key items
  handle now (deleting key) items = delete key items
  handle now sweeping items = sweep now items

  unfoldable pub handle_all : List (Time × Event) → List CacheItem → List CacheItem
  unfolding handle
  handle_all [] items = items
  handle_all ((now, e) ∷ es) items = handle_all es (handle now e items)

-- What was stored last under each key, as a cache without bounds would hold it.
abbrev pub Memory : Type 0
Memory = String → Option CacheItem

unfoldable pub remember : Time → Event → Memory → Memory
remember now (setting key value ttl) m k =
    if str_eq k key then some (record { key = key; value = value; expires_at = now + ttl }) else m k
remember now (deleting key) m k = if str_eq k key then none else m k
remember now (dropping key) m k = m k
remember now sweeping m k = m k

unfoldable pub remember_all : List (Time × Event) → Memory → Memory
unfolding remember
remember_all [] m = m
remember_all ((now, e) ∷ es) m = remember_all es (remember now e m)

length-without : (q : CacheItem → Bool) (xs : List CacheItem) → length (without q xs) ≤ length xs
unfolding without
length-without q [] = omega arith
length-without q (x ∷ xs) = ground (arith, length-without q xs)

-- A removal of something that is there makes the cache smaller.
without-shrinks :
    (q : CacheItem → Bool) (xs : List CacheItem)
    → any q xs ≡ true
    → suc (length (without q xs)) ≤ length xs
unfolding without
without-shrinks q [] h = cc
without-shrinks q (y ∷ ys) h = elim (Bool-cases (q y)) [
  | inl hit ↦ ground (arith, hit, length-without q ys)
  | inr miss ↦ ground (arith, miss, h, without-shrinks q ys)
]

-- The victim is one of the items.
nearest-found :
    (best : CacheItem) (xs : List CacheItem)
    → (v : CacheItem) × (nearest (some best) xs ≡ some v) × (any (has_key v.key) (best ∷ xs) ≡ true)
unfolding nearest
nearest-found best [] =
    let own : str_eq best.key best.key ≡ true = (str_eq_iff best.key best.key).1 refl in
    (best, refl, ground (arith, own))
nearest-found best (y ∷ ys) = elim (Bool-cases (ltb y.expires_at best.expires_at)) [
  | inl sooner ↦ let (v, e, member) = nearest-found y ys in (v, rw sooner e, ground (arith, member))
  | inr later ↦
      let (v, e, member) = nearest-found best ys in (v, rw later e, ground (arith, member))
]

evict_oldest-shrinks :
    (x : CacheItem) (xs : List CacheItem) → suc (length (evict_oldest (x ∷ xs))) ≤ length (x ∷ xs)
unfolding evict_oldest nearest delete remove_victim
evict_oldest-shrinks x xs =
    let (v, e, member) = nearest-found x xs in
    rw e (without-shrinks (has_key v.key) (x ∷ xs) member)

-- A cache of no room still takes one item.
abbrev pub bound : ℕ → ℕ
bound max = if ltb 0 max then max else 1

find-any :
    (q : CacheItem → Bool) (xs : List CacheItem) (x : CacheItem)
    → find q xs ≡ some x
    → any q xs ≡ true
unfolding find
find-any q [] x h = cc
find-any q (y ∷ ys) x h = ground (arith, h, find-any q ys x)

evict_oldest_nil : evict_oldest [] ≡ []
unfolding evict_oldest nearest remove_victim
evict_oldest_nil = refl

set_nil-bound :
    (max now : ℕ) (key : String) (value : List ℕ) (ttl : ℕ)
    → length (set max now key value ttl []) ≡ 1
unfolding set make_room find without
set_nil-bound max now key value ttl = ground (arith, evict_oldest_nil)

set-bound :
    (max now : ℕ) (key : String) (value : List ℕ) (ttl : ℕ) (items : List CacheItem)
    → length items ≤ bound max
    → length (set max now key value ttl items) ≤ bound max
unfolding set make_room
set-bound max now key value ttl [] h = ground (arith, set_nil-bound max now key value ttl)
set-bound max now key value ttl (x ∷ xs) h =
    let items = x ∷ xs in
    elim (Option-cases (find (has_key key) items)) [
      | inr (old, there) ↦ ground (
        arith,
        h,
        there,
        without-shrinks (has_key key) items (find-any (has_key key) items old there),
      )
      | inl new ↦ ground (
        arith,
        h,
        new,
        evict_oldest-shrinks x xs,
        length-without (has_key key) items,
        length-without (has_key key) (evict_oldest items),
      )
    ]

-- Every item is the one stored last under its key.
abbrev pub IsFaithful : Memory → List CacheItem → Type 0
IsFaithful m items = All (λ x. m x.key ≡ some x) items

without-IsFaithful :
    (q : CacheItem → Bool) (m : Memory) (xs : List CacheItem)
    → IsFaithful m xs
    → IsFaithful m (without q xs)
unfolding without
without-IsFaithful q m [] h = h
without-IsFaithful q m (x ∷ xs) (hx, hs) = elim (Bool-cases (q x)) [
  | inl hit ↦ rw hit (without-IsFaithful q m xs hs)
  | inr miss ↦ rw miss (hx, without-IsFaithful q m xs hs)
]

-- Without the items of a key, what is remembered under that key may change.
changed-IsFaithful :
    (key : String) (m n : Memory) (xs : List CacheItem)
    → ((k : String) → str_eq k key ≡ false → n k ≡ m k)
    → IsFaithful m xs
    → IsFaithful n (without (has_key key) xs)
unfolding without
changed-IsFaithful key m n [] same h = h
changed-IsFaithful key m n (x ∷ xs) same (hx, hs) = elim (Bool-cases (str_eq x.key key)) [
  | inl hit ↦ rw hit (changed-IsFaithful key m n xs same hs)
  | inr miss ↦ rw miss (same x.key miss ∙ hx, changed-IsFaithful key m n xs same hs)
]

remove_victim-IsFaithful :
    (v : Option CacheItem) (m : Memory) (xs : List CacheItem)
    → IsFaithful m xs
    → IsFaithful m (remove_victim v xs)
unfolding remove_victim delete
remove_victim-IsFaithful none m xs h = h
remove_victim-IsFaithful (some v) m xs h = without-IsFaithful (has_key v.key) m xs h

make_room-IsFaithful :
    (max : ℕ) (key : String) (m : Memory) (xs : List CacheItem)
    → IsFaithful m xs
    → IsFaithful m (make_room max key xs)
unfolding make_room evict_oldest
make_room-IsFaithful max key m xs h =
    elim (Bool-cases (is_absent (find (has_key key) xs) && leb max (length xs))) [
      | inl full ↦ rw full (remove_victim-IsFaithful (nearest none xs) m xs h)
      | inr room ↦ rw room h
    ]

pub handle-IsFaithful :
    (max now : ℕ) (e : Event) (m : Memory) (items : List CacheItem)
    → IsFaithful m items
    → IsFaithful (remember now e m) (handle max now e items)
unfolding handle remember set delete sweep
handle-IsFaithful max now (setting key value ttl) m items h =
    let own : str_eq key key ≡ true = (str_eq_iff key key).1 refl in
    (
      rw own refl,
      changed-IsFaithful key m (remember now (setting key value ttl) m) (make_room max key items)
          (λ k other. rw other refl) (make_room-IsFaithful max key m items h),
    )
handle-IsFaithful max now (dropping key) m items h = without-IsFaithful (has_key key) m items h
handle-IsFaithful max now (deleting key) m items h =
    changed-IsFaithful key m (remember now (deleting key) m) items (λ k other. rw other refl) h
handle-IsFaithful max now sweeping m items h = without-IsFaithful (expired now) m items h

pub handle-bound :
    (max now : ℕ) (e : Event) (items : List CacheItem)
    → length items ≤ bound max
    → length (handle max now e items) ≤ bound max
unfolding handle delete sweep
handle-bound max now (setting key value ttl) items h = set-bound max now key value ttl items h
handle-bound max now (dropping key) items h = ground (arith, h, length-without (has_key key) items)
handle-bound max now (deleting key) items h = ground (arith, h, length-without (has_key key) items)
handle-bound max now sweeping items h = ground (arith, h, length-without (expired now) items)
