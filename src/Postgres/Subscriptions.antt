-- ===== src/Postgres/Subscriptions.antt =====
-- internal/repository/postgres/social_repository.go: the subscriptions, with the trigger on their table
-- (migrations/000009_add_social_features.up.sql). `now` is the database's NOW().
use mathlib.Core.Option as Option
use video_streaming_service.Common.{
  ℕ, ℤ, suc_int, pred_int, Bool, true, false, not, ◌&&◌, List, [], ◌∷◌, ◌++◌, Option, none, some,
  String, ok, err, database_error, subscription_not_found, leb, ◌==◌, if◌then◌else◌,
}
use video_streaming_service.Common.Rows.{filter, find, count, sort, page, remove_first, Keys.lookup}
use video_streaming_service.Domain.User.{User, Uuid, Time, is_some}
use video_streaming_service.Domain.Social.{Subscription, SubscriptionEntry}
use video_streaming_service.Postgres.{World, Action}
use video_streaming_service.Postgres.Calls.{round_trip}

-- UNIQUE(subscriber_id, creator_id)
abbrev pub is_pair : Uuid → Uuid → Subscription → Bool
is_pair subscriber creator s = s.subscriber_id == subscriber && s.creator_id == creator

unfoldable pub touch_user : Time → Uuid → (Uuid → Option User) → Uuid → Option User
touch_user now id users j =
    if j == id
    then Option.map {A = User} {B = User} (λ u. record u { updated_at = now }) (users id)
    else users j

unfoldable pub step_count : (ℤ → ℤ) → Uuid → (Uuid → ℤ) → Uuid → ℤ
step_count step id counts j = if j == id then step (counts id) else counts j

-- The rows written, and `UPDATE users SET subscriber_count = ...` of the creator.
abbrev pub with_subscriptions : Time → (ℤ → ℤ) → Uuid → List Subscription → World → World
with_subscriptions now step creator subscriptions w = record w {
  users = touch_user now creator w.users;
  social = record w.social {
    subscriptions = subscriptions;
    subscriber_counts = step_count step creator w.social.subscriber_counts;
  };
}

abbrev pub accepts_subscription : World → Subscription → Bool
accepts_subscription w s =
    not (is_some (lookup (λ x. x.id) s.id w.social.subscriptions))
    && (is_some (w.users s.subscriber_id) && is_some (w.users s.creator_id))

unfoldable pub subscribe : Time → Subscription → Option Subscription → Action Bool
unfolding touch_user step_count
subscribe now s (some old) w = (ok false, w)
subscribe now s none w =
    if accepts_subscription w s
    then (ok true, with_subscriptions now suc_int s.creator_id (w.social.subscriptions ++ s ∷ []) w)
    else (err database_error, w)

-- Whether a row was inserted. The CHECK comes before the conflict.
unfoldable pub create_subscription : Time → Subscription → Action Bool
unfolding subscribe
create_subscription now s = round_trip database_error (λ w.
    if s.subscriber_id == s.creator_id
    then (err database_error, w)
    else subscribe now s (find (is_pair s.subscriber_id s.creator_id) w.social.subscriptions) w)

unfoldable pub unsubscribe : Time → Uuid → Uuid → Option Subscription → Action Unit
unfolding touch_user step_count
unsubscribe now subscriber creator none w = (err subscription_not_found, w)
unsubscribe now subscriber creator (some old) w = (
  ok tt,
  with_subscriptions now pred_int old.creator_id
      (remove_first (is_pair subscriber creator) w.social.subscriptions) w,
)

unfoldable pub delete_subscription : Time → Uuid → Uuid → Action Unit
unfolding unsubscribe
delete_subscription now subscriber creator = round_trip database_error (λ w.
    unsubscribe now subscriber creator (find (is_pair subscriber creator) w.social.subscriptions) w)

-- `COALESCE(u.oauth_avatar_url, u.avatar_url, '')`
unfoldable pub avatar_of : Option String → Option String → String
avatar_of (some url) plain = url
avatar_of none (some url) = url
avatar_of none none = ""

-- A row joined to the user of an id; without one it is not listed.
join_user : World → Subscription → Option User → List SubscriptionEntry → List SubscriptionEntry
unfolding avatar_of
join_user w s none rest = rest
join_user w s (some u) rest =
    record {
      user_id = u.id;
      username = u.username;
      avatar_url = avatar_of u.oauth_avatar_url u.avatar_url;
      subscriber_count = w.social.subscriber_counts u.id;
      notify_uploads = s.notify_uploads;
      subscribed_at = s.created_at;
    }
    ∷ rest

unfoldable pub join_users :
    World → (Subscription → Uuid) → List Subscription → List SubscriptionEntry
unfolding join_user
join_users w side [] = []
join_users w side (s ∷ ss) = join_user w s (w.users (side s)) (join_users w side ss)

abbrev pub newest_first : Subscription → Subscription → Bool
newest_first a b = leb b.created_at a.created_at

unfoldable pub list_subscribers : Uuid → ℕ → ℕ → Action (List SubscriptionEntry)
list_subscribers creator limit offset = round_trip database_error (λ w. (
  ok (
      page limit offset (
        join_users w (λ s. s.subscriber_id)
          (sort newest_first (filter (λ s. s.creator_id == creator) w.social.subscriptions)))),
  w,
))

unfoldable pub count_subscribers : Uuid → Action ℕ
count_subscribers creator =
    round_trip database_error
      (λ w. (ok (count (λ s. s.creator_id == creator) w.social.subscriptions), w))

unfoldable pub list_subscriptions : Uuid → ℕ → ℕ → Action (List SubscriptionEntry)
list_subscriptions subscriber limit offset = round_trip database_error (λ w. (
  ok (
      page limit offset (
        join_users w (λ s. s.creator_id)
          (sort newest_first
            (filter (λ s. s.subscriber_id == subscriber) w.social.subscriptions)))),
  w,
))

unfoldable pub count_subscriptions : Uuid → Action ℕ
count_subscriptions subscriber =
    round_trip database_error
      (λ w. (ok (count (λ s. s.subscriber_id == subscriber) w.social.subscriptions), w))
