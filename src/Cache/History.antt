-- ===== src/Cache/History.antt =====
-- Any history of the cache, of however many requests (internal/cache/cache.go).
use video_streaming_service.Common.{
  ℕ, ◌≤◌, ◌≡◌, ◌⊎◌, ◌∙◌, refl, sym, ap, inl, inr, List, [], ◌∷◌, none, some, String, str_eq,
  str_eq_iff, arith, length, Bool-cases, Option-cases,
}
use video_streaming_service.Common.Rows.{find}
use video_streaming_service.Domain.User.{Time}
use video_streaming_service.Cache.{CacheItem, has_key, answer_of, get}
use video_streaming_service.Cache.Forgetting.{
  Event, handle, handle_all, Memory, remember, remember_all, bound, IsFaithful, handle-IsFaithful,
  handle-bound,
}

handle_all-IsFaithful :
    (max : ℕ) (es : List (Time × Event)) (m : Memory) (items : List CacheItem)
    → IsFaithful m items
    → IsFaithful (remember_all es m) (handle_all max es items)
unfolding handle_all remember_all
handle_all-IsFaithful max [] m items h = h
handle_all-IsFaithful max ((now, e) ∷ es) m items h =
    handle_all-IsFaithful max es (remember now e m) (handle max now e items)
      (handle-IsFaithful max now e m items h)

handle_all-bound :
    (max : ℕ) (es : List (Time × Event)) (items : List CacheItem)
    → length items ≤ bound max
    → length (handle_all max es items) ≤ bound max
unfolding handle_all
handle_all-bound max [] items h = h
handle_all-bound max ((now, e) ∷ es) items h =
    handle_all-bound max es (handle max now e items) (handle-bound max now e items h)

-- What is found under a key has it, and is what is remembered.
find-remembered :
    (key : String) (m : Memory) (items : List CacheItem) (x : CacheItem)
    → IsFaithful m items
    → find (has_key key) items ≡ some x
    → m key ≡ some x
unfolding find
find-remembered key m [] x h there = cc
find-remembered key m (y ∷ ys) x (hy, hs) there = elim (Bool-cases (str_eq y.key key)) [
  | inl hit ↦
      let found : find (has_key key) (y ∷ ys) ≡ some y = rw hit refl in
      ap m (sym ((str_eq_iff y.key key).0 hit)) ∙ hy ∙ sym found ∙ there
  | inr miss ↦
      let later : find (has_key key) (y ∷ ys) ≡ find (has_key key) ys = rw miss refl in
      find-remembered key m ys x hs (sym later ∙ there)
]

-- The promise of a cache: it may miss, and otherwise answers as the whole memory would.
abbrev pub AnswersAs : Time → String → Memory → List CacheItem → Type 0
AnswersAs now key m items =
    (get now key items).0 ≡ none ⊎ (get now key items).0 ≡ answer_of now (m key)

get-AnswersAs :
    (now : Time) (key : String) (m : Memory) (items : List CacheItem)
    → IsFaithful m items
    → AnswersAs now key m items
unfolding get
get-AnswersAs now key m items h = elim (Option-cases (find (has_key key) items)) [
  | inl missing ↦ inl (rw missing refl)
  | inr (x, there) ↦ inr (rw (there, find-remembered key m items x h there) refl)
]

-- After any history of stores, deletions, sweeps and late drops of expired items that starts with an empty
-- cache, the cache holds no more items than its limit (one if the limit is 0), and Get of any key at any time
-- either misses or answers exactly as a cache without limit, which holds what was stored last under each key
-- and not deleted since: with that value, if it has not expired.
pub handle_all-AnswersAs :
    (max : ℕ) (es : List (Time × Event)) (now : Time) (key : String)
    → (length (handle_all max es []) ≤ bound max)
      × AnswersAs now key (remember_all es (λ k. none)) (handle_all max es [])
handle_all-AnswersAs max es now key = (
  handle_all-bound max es [] (ground arith),
  get-AnswersAs now key (remember_all es (λ k. none)) (handle_all max es [])
      (handle_all-IsFaithful max es (λ k. none) [] tt),
)
