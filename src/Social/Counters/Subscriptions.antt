-- ===== src/Social/Counters/Subscriptions.antt =====
-- users.subscriber_count against the rows of subscriptions
-- (internal/repository/postgres/social_repository.go).
use video_streaming_service.Common.{
  ◌≡◌, refl, inl, inr, Bool, true, Option, none, some, arith, Bool-cases, ◌==◌,
}
use video_streaming_service.Common.Rows.{find, count, count-append, count-remove_first}
use video_streaming_service.Domain.User.{Uuid, Time}
use video_streaming_service.Domain.Social.{Subscription}
use video_streaming_service.Postgres.{World}
use video_streaming_service.Postgres.Calls.{Keeps, round_trip-Keeps}
use video_streaming_service.Postgres.Subscriptions.{
  is_pair, step_count, accepts_subscription, subscribe, unsubscribe, create_subscription,
  delete_subscription,
}
use video_streaming_service.Social.Counters.Tally.{is_exactly}

abbrev pub is_to : Uuid → Subscription → Bool
is_to creator s = s.creator_id == creator

-- Every creator's counter is the number of the subscriptions.
abbrev pub SubscribersCounted : World → Type 0
SubscribersCounted w =
    (id : Uuid)
    → is_exactly (w.social.subscriber_counts id) (count (is_to id) w.social.subscriptions) ≡ true

subscribe-SubscribersCounted :
    (now : Time) (s : Subscription) (row : Option Subscription) (w : World)
    → SubscribersCounted w
    → SubscribersCounted (subscribe now s row w).1
unfolding subscribe step_count
subscribe-SubscribersCounted now s (some old) w counted id = counted id
subscribe-SubscribersCounted now s none w counted id =
    elim (Bool-cases (accepts_subscription w s)) [
      | inl good ↦ rw good (
          ground (
            arith,
            counted id,
            counted s.creator_id,
            count-append (is_to id) w.social.subscriptions s,
          ))
      | inr bad ↦ rw bad (counted id)
    ]

pub create_subscription-SubscribersCounted :
    (now : Time) (s : Subscription) → Keeps SubscribersCounted (create_subscription now s)
unfolding create_subscription
create_subscription-SubscribersCounted now s =
    round_trip-Keeps _ _ (λ w fs h. h)
      (λ w h. elim (Bool-cases (s.subscriber_id == s.creator_id)) [
        | inl own ↦ rw own h
        | inr other ↦ rw other (subscribe-SubscribersCounted now s _ w h)
      ])

unsubscribe-SubscribersCounted :
    (now : Time) (subscriber creator : Uuid) (row : Option Subscription) (w : World)
    → find (is_pair subscriber creator) w.social.subscriptions ≡ row
    → SubscribersCounted w
    → SubscribersCounted (unsubscribe now subscriber creator row w).1
unfolding unsubscribe step_count
unsubscribe-SubscribersCounted now subscriber creator none w e counted id = counted id
unsubscribe-SubscribersCounted now subscriber creator (some old) w e counted id = ground (
  arith,
  counted id,
  count-remove_first (is_to id) (is_pair subscriber creator) w.social.subscriptions old e,
)

pub delete_subscription-SubscribersCounted :
    (now : Time) (subscriber creator : Uuid)
    → Keeps SubscribersCounted (delete_subscription now subscriber creator)
unfolding delete_subscription
delete_subscription-SubscribersCounted now subscriber creator =
    round_trip-Keeps _ _ (λ w fs h. h)
      (λ w. unsubscribe-SubscribersCounted now subscriber creator _ w refl)
