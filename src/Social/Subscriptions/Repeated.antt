-- ===== src/Social/Subscriptions/Repeated.antt =====
-- A second subscription of the same user to the same creator (internal/service/social_service.go:
-- Subscribe).
use video_streaming_service.Common.{
  ◌≡◌, inl, inr, true, ok, arith, Option-cases, ◌==◌, self_subscription,
}
use video_streaming_service.Common.Rows.{find, find-append}
use video_streaming_service.Domain.User.{Uuid, Time, is_some}
use video_streaming_service.Domain.Social.{Subscription, Notification}
use video_streaming_service.Postgres.{World}
use video_streaming_service.Postgres.Calls.{
  Keeps, Ends, ◌>>=◌, pure, raise, give, round_trip, attempt, bind-Ends, bind-Ends_kept, raise-Ends,
  if-Ends, if-Keeps, pure-Keeps,
}
use video_streaming_service.Postgres.Moderated.{get_user}
use video_streaming_service.Postgres.Subscriptions as Rows
use video_streaming_service.Postgres.Notices.{create_notification}
use video_streaming_service.Social.{notify}
use video_streaming_service.Social.Subscriptions.{subscribe}

-- The user subscribes to the creator.
abbrev pub Subscribes : Uuid → Uuid → World → Type 0
Subscribes subscriber creator w =
    is_some (find (Rows.is_pair subscriber creator) w.social.subscriptions) ≡ true

create_subscription-Subscribes :
    (now : Time) (s : Subscription)
    → Ends (Subscribes s.subscriber_id s.creator_id) (Rows.create_subscription now s)
unfolding Rows.create_subscription Rows.subscribe round_trip
create_subscription-Subscribes now s = record {
  run = λ w a h.
      elim (Option-cases
        (find (Rows.is_pair s.subscriber_id s.creator_id) w.social.subscriptions)) [
          | inl e ↦ ground (
            arith,
            e,
            find-append (Rows.is_pair s.subscriber_id s.creator_id) w.social.subscriptions s e,
          )
          | inr (old, e) ↦ ground (arith, e)
        ];
}

notify-subscriptions :
    (fresh : Uuid) (now : Time) (n : Notification) (w : World)
    → (notify fresh now n w).1.social.subscriptions ≡ w.social.subscriptions
unfolding notify attempt give ◌>>=◌ create_notification round_trip
notify-subscriptions fresh now n w = ground arith

notify-Subscribes :
    (subscriber creator fresh : Uuid) (now : Time) (n : Notification)
    → Keeps (Subscribes subscriber creator) (notify fresh now n)
notify-Subscribes subscriber creator fresh now n = record {
  run = λ w h. rw (notify-subscriptions fresh now n w) h;
}

subscribe-Subscribes :
    (now : Time) (fresh fresh_notice subscriber creator : Uuid)
    → Ends (Subscribes subscriber creator) (subscribe now fresh fresh_notice subscriber creator)
unfolding subscribe
subscribe-Subscribes now fresh fresh_notice subscriber creator =
    if-Ends (subscriber == creator) _ _ (raise-Ends self_subscription) (
      bind-Ends _ _ (λ user. bind-Ends _ _ (λ _.
        bind-Ends_kept _ _ (create_subscription-Subscribes now _) (λ inserted.
          if-Keeps inserted _ _ (notify-Subscribes subscriber creator fresh_notice now _)
            (pure-Keeps tt)))))

again-social :
    (now : Time) (fresh fresh_notice subscriber creator : Uuid) (w : World)
    → Subscribes subscriber creator w
    → (subscribe now fresh fresh_notice subscriber creator w).1.social ≡ w.social
unfolding subscribe get_user Rows.create_subscription Rows.subscribe round_trip give ◌>>=◌ pure
    raise
again-social now fresh fresh_notice subscriber creator w h = ground (arith, h)

-- After a Subscribe that succeeds, another one by the same user to the same creator, at any time and
-- whatever its outcome, changes none of the social tables: there is no second row, the counter stays, and
-- the creator is not notified again.
pub subscribe_again :
    (now later : Time) (fresh fresh_notice fresh' fresh_notice' subscriber creator : Uuid)
    (w : World)
    → (subscribe now fresh fresh_notice subscriber creator w).0 ≡ ok tt
    → let w' = (subscribe now fresh fresh_notice subscriber creator w).1 in
      (subscribe later fresh' fresh_notice' subscriber creator w').1.social ≡ w'.social
subscribe_again now later fresh fresh_notice fresh' fresh_notice' subscriber creator w h =
    again-social later fresh' fresh_notice' subscriber creator _
      ((subscribe-Subscribes now fresh fresh_notice subscriber creator).run w tt h)
