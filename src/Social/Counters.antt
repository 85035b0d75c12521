-- ===== src/Social/Counters.antt =====
-- The counters that the triggers keep: users, videos, comments and playlists against the rows that
-- refer to them, under every statement of internal/repository/postgres/social_repository.go.
pub mod Tally
pub mod Likes
pub mod Comments
pub mod Edits
pub mod Subscriptions
pub mod Playlists
pub mod Frames
pub mod Statements
pub mod Kept
pub mod Requests
