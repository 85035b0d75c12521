-- ===== src/Social/Subscriptions.antt =====
-- The subscriptions (internal/service/social_service.go).
pub mod Repeated
use video_streaming_service.Common.{
  ℕ, true, false, List, none, some, self_subscription, ◌==◌, if◌then◌else◌,
}
use video_streaming_service.Domain.User.{Uuid, Time}
use video_streaming_service.Domain.Social.{
  Subscription, SubscriptionEntry, Notification, validate_subscription,
}
use video_streaming_service.Postgres.{Action}
use video_streaming_service.Postgres.Calls.{◌>>=◌, ◌>>◌, pure, raise, give}
use video_streaming_service.Postgres.Moderated.{get_user}
use video_streaming_service.Postgres.Subscriptions as Rows
use video_streaming_service.Social.{notify}

abbrev pub new_subscriber : Uuid → Uuid → Notification
new_subscriber creator subscriber = record {
  id = 0;
  user_id = creator;
  kind = "subscriber";
  title = "You have a new subscriber";
  message = "";
  action_url = none;
  actor_id = some subscriber;
  video_id = none;
  comment_id = none;
  read = false;
  created_at = 0;
}

-- Another subscription of the same pair succeeds and says nothing.
unfoldable pub subscribe : Time → Uuid → Uuid → Uuid → Uuid → Action Unit
subscribe now fresh fresh_notice subscriber creator_id =
    if subscriber == creator_id then raise self_subscription else (do
      creator ← get_user creator_id
      let sub : Subscription = record {
        id = fresh;
        subscriber_id = subscriber;
        creator_id = creator_id;
        notify_uploads = true;
        created_at = now;
      }
      give (validate_subscription sub)
      inserted ← Rows.create_subscription now sub
      (if inserted
          then notify fresh_notice now (new_subscriber creator.id subscriber)
          else pure tt))

unfoldable pub unsubscribe : Time → Uuid → Uuid → Action Unit
unsubscribe now subscriber creator = Rows.delete_subscription now subscriber creator

unfoldable pub list_subscribers : Uuid → ℕ → ℕ → Action (List SubscriptionEntry × ℕ)
list_subscribers creator limit offset = do
  get_user creator
  subscribers ← Rows.list_subscribers creator limit offset
  total ← Rows.count_subscribers creator
  pure (subscribers, total)

unfoldable pub list_subscriptions : Uuid → ℕ → ℕ → Action (List SubscriptionEntry × ℕ)
list_subscriptions subscriber limit offset = do
  subscriptions ← Rows.list_subscriptions subscriber limit offset
  total ← Rows.count_subscriptions subscriber
  pure (subscriptions, total)
