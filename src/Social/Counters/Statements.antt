-- ===== src/Social/Counters/Statements.antt =====
-- All the counters at once, and statements on some of them
-- (internal/repository/postgres/social_repository.go).
use video_streaming_service.Common.{ℤ, ◌≡◌, sym, subst, List, [], Option, none}
use video_streaming_service.Domain.User.{Uuid}
use video_streaming_service.Domain.Video.{Video}
use video_streaming_service.Domain.Social.{Like, Comment, Subscription, Playlist, PlaylistVideo}
use video_streaming_service.Postgres.{World, Action}
use video_streaming_service.Postgres.Calls.{Keeps}
use video_streaming_service.Social.Counters.Likes.{LikesCounted}
use video_streaming_service.Social.Counters.Comments.{
  CommentsCounted, RepliesCounted, ThreadsCounted,
}
use video_streaming_service.Social.Counters.Subscriptions.{SubscribersCounted}
use video_streaming_service.Social.Counters.Playlists.{PlaylistsCounted}

-- Every counter is the number of the rows that it stands for.
abbrev pub IsCounted : World → Type 0
IsCounted w =
    LikesCounted w
    × CommentsCounted w
    × RepliesCounted w
    × SubscribersCounted w
    × PlaylistsCounted w

-- The columns that the counters and the rows stand in: for ratings and comments, for subscriptions, and
-- for playlists.
abbrev Rated : Type 0
Rated = (Uuid → Option Video) × List Like × List Comment

abbrev rated : World → Rated
rated w = (w.videos, w.social.likes, w.social.comments)

abbrev Followed : Type 0
Followed = (Uuid → ℤ) × List Subscription

abbrev followed : World → Followed
followed w = (w.social.subscriber_counts, w.social.subscriptions)

abbrev Listed : Type 0
Listed = List Playlist × List PlaylistVideo

abbrev listed : World → Listed
listed w = (w.social.playlists, w.social.playlist_videos)

-- A world of nothing but those columns.
abbrev of_columns : Rated → Followed → Listed → World
of_columns (videos, likes, comments) (counts, subscriptions) (playlists, playlist_videos) = record {
  videos = videos;
  users = λ _. none;
  reports = [];
  social = record {
    likes = likes;
    comments = comments;
    subscriptions = subscriptions;
    subscriber_counts = counts;
    playlists = playlists;
    playlist_videos = playlist_videos;
    watch_later = [];
    notifications = [];
  };
  faults = [];
}

still_rated :
    (w w' : World)
    → rated w' ≡ rated w
    → LikesCounted w × CommentsCounted w × RepliesCounted w
    → LikesCounted w' × CommentsCounted w' × RepliesCounted w'
still_rated w w' e h =
    subst
      (λ x.
        let v = of_columns x (followed w) (listed w) in
        LikesCounted v × CommentsCounted v × RepliesCounted v)
      (sym e) h

module _ {A : Type 0} (m : Action A) where
  -- A statement that leaves those columns.
  pub untouched :
      ((w : World) → rated (m w).1 ≡ rated w)
      → ((w : World) → followed (m w).1 ≡ followed w)
      → ((w : World) → listed (m w).1 ≡ listed w)
      → Keeps IsCounted m
  untouched er ef el = record {
    run = λ w h.
        subst (λ l. IsCounted (of_columns (rated (m w).1) (followed (m w).1) l)) (sym (el w))
          (subst (λ f. IsCounted (of_columns (rated (m w).1) f (listed w))) (sym (ef w))
            (subst (λ r. IsCounted (of_columns r (followed w) (listed w))) (sym (er w)) h));
  }

  -- A statement on ratings or comments.
  pub rates :
      Keeps LikesCounted m
      → Keeps ThreadsCounted m
      → ((w : World) → followed (m w).1 ≡ followed w)
      → ((w : World) → listed (m w).1 ≡ listed w)
      → Keeps IsCounted m
  rates kl kt ef el = record {
    run = λ w (l, c, r, s, p). (
      kl.run w l,
      (kt.run w (c, r)).0,
      (kt.run w (c, r)).1,
      subst (λ f. SubscribersCounted (of_columns (rated w) f (listed w))) (sym (ef w)) s,
      subst (λ x. PlaylistsCounted (of_columns (rated w) (followed w) x)) (sym (el w)) p,
    );
  }

  -- A statement on subscriptions.
  pub follows :
      Keeps SubscribersCounted m
      → ((w : World) → rated (m w).1 ≡ rated w)
      → ((w : World) → listed (m w).1 ≡ listed w)
      → Keeps IsCounted m
  follows ks er el = record {
    run = λ w (l, c, r, s, p).
        let (l', c', r') = still_rated w (m w).1 (er w) (l, c, r) in
        (
          l',
          c',
          r',
          ks.run w s,
          subst (λ x. PlaylistsCounted (of_columns (rated w) (followed w) x)) (sym (el w)) p,
        );
  }

  -- A statement on playlists.
  pub lists :
      Keeps PlaylistsCounted m
      → ((w : World) → rated (m w).1 ≡ rated w)
      → ((w : World) → followed (m w).1 ≡ followed w)
      → Keeps IsCounted m
  lists kp er ef = record {
    run = λ w (l, c, r, s, p).
        let (l', c', r') = still_rated w (m w).1 (er w) (l, c, r) in
        (
          l',
          c',
          r',
          subst (λ f. SubscribersCounted (of_columns (rated w) f (listed w))) (sym (ef w)) s,
          kp.run w p,
        );
  }
