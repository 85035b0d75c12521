-- ===== src/Examples/Caching.antt =====
-- The cache at work (internal/cache/cache.go).
use video_streaming_service.Common.{◌≡◌, ◌≤◌, refl, List, [], ◌∷◌, some, none, length}
use video_streaming_service.Domain.User.{Time}
use video_streaming_service.Cache.{
  drop_expired, delete, get, nearest, remove_victim, evict_oldest, make_room, set, sweep, expired,
}
use video_streaming_service.Common.Rows.{find, without}
use video_streaming_service.Cache.Forgetting.{
  Event, setting, sweeping, bound, handle, handle_all, remember_all,
}
use video_streaming_service.Cache.History.{AnswersAs, handle_all-AnswersAs}

-- A cache of two items, whose third takes the place of the one nearest to its expiry.
abbrev busy : List (Time × Event)
busy =
    (10, setting "a" (1 ∷ []) 50)
    ∷ (11, setting "b" (2 ∷ []) 5)
    ∷ (12, setting "a" (3 ∷ []) 60)
    ∷ (13, setting "c" (4 ∷ []) 9)
    ∷ (20, sweeping)
    ∷ []

kept : (get 21 "a" (handle_all 2 busy [])).0 ≡ some (3 ∷ [])
unfolding get handle_all handle set make_room evict_oldest nearest remove_victim delete sweep
    expired find without
kept = refl

evicted : (get 14 "b" (handle_all 2 busy [])).0 ≡ none
unfolding get handle_all handle set make_room evict_oldest nearest remove_victim delete sweep
    expired find without
evicted = refl

-- At the moment of its expiry an item is still answered.
fresh : (get 22 "c" (handle_all 2 busy [])).0 ≡ some (4 ∷ [])
unfolding get handle_all handle set make_room evict_oldest nearest remove_victim delete sweep
    expired find without
fresh = refl

stale : get 23 "c" (handle_all 1 busy []) ≡ (none, [])
unfolding get drop_expired handle_all handle set make_room evict_oldest nearest remove_victim delete
    sweep expired find without
stale = refl

handle_all-AnswersAs_example :
    (length (handle_all 2 busy []) ≤ bound 2)
    × AnswersAs 21 "a" (remember_all busy (λ k. none)) (handle_all 2 busy [])
handle_all-AnswersAs_example = handle_all-AnswersAs 2 busy 21 "a"
