-- ===== src/Examples/Fixtures.antt =====
-- A small server, key and user to run the models on (pkg/jwt/token.go, internal/service).
use video_streaming_service.Common.{
  [], leb, subst, ◌⊎◌, ℕ, ℤ, pos, negsuc, ◌+◌, ◌≤◌, ◌≡◌, ◌≢◌, refl, Bool-cases, inl, inr, Bool,
  true, false, ◌&&◌, Option, none, some, String, str_eq, str_eq_iff, ok, err, user_not_found, arith,
  ltb, ◌==◌, if◌then◌else◌,
}
use video_streaming_service.Common.Text.{concat}
use video_streaming_service.Domain.User.{User, Uuid, Time, draft_user}
use video_streaming_service.Password.{Classes, Bcrypt}
use video_streaming_service.Token.{Claims, JwtLibrary, TokenService, in_time}
use video_streaming_service.Redis.{Redis}
use video_streaming_service.Postgres.{SocialTables}
use video_streaming_service.Auth.{Authenticator}
use video_streaming_service.Account.{UserRepository, AuthService}

abbrev pub tokens : TokenService
tokens = record {
  secret_key = "key";
  access_ttl = 900000000000;
  refresh_ttl = 3600000000000;
  issuer = "svc";
}

-- A quarter past the epoch's fifth second.
abbrev pub minted : Time
minted = 5250000000

abbrev pub access_claims : Claims
access_claims = record {
  user_id = "7";
  username = "ann";
  role = "user";
  typ = "access";
  issued_at_ms = pos 5250;
  id = "a";
  subject = "7";
  issued_at = some 5000000000;
  expires_at = some 905000000000;
  not_before = some 5000000000;
  issuer = "svc";
}

abbrev pub refresh_claims : Claims
refresh_claims = record {
  user_id = "7";
  username = "ann";
  role = "user";
  typ = "refresh";
  issued_at_ms = pos 5250;
  id = "r";
  subject = "7";
  issued_at = some 5000000000;
  expires_at = some 3605000000000;
  not_before = some 5000000000;
  issuer = "svc";
}

abbrev pub time_eq : Option Time → Option Time → Bool
time_eq none none = true
time_eq (some a) (some b) = a == b
time_eq _ _ = false

abbrev pub int_eq : ℤ → ℤ → Bool
int_eq (pos a) (pos b) = a == b
int_eq (negsuc a) (negsuc b) = a == b
int_eq _ _ = false

time_eq_sound : (a b : Option Time) → time_eq a b ≡ true → a ≡ b
time_eq_sound a b h = ground arith

int_eq_sound : (a b : ℤ) → int_eq a b ≡ true → a ≡ b
int_eq_sound a b h = ground arith

str_eq_sound : (a b : String) → str_eq a b ≡ true → a ≡ b
str_eq_sound a b = (str_eq_iff a b).0

unfoldable pub claims_eq : Claims → Claims → Bool
claims_eq c d =
    str_eq c.user_id d.user_id
    && (str_eq c.username d.username
        && (str_eq c.role d.role
            && (str_eq c.typ d.typ
                && (int_eq c.issued_at_ms d.issued_at_ms
                    && (str_eq c.id d.id
                        && (str_eq c.subject d.subject
                            && (time_eq c.issued_at d.issued_at
                                && (time_eq c.expires_at d.expires_at
                                    && (time_eq c.not_before d.not_before
                                        && str_eq c.issuer d.issuer)))))))))

claims_eq_sound : (c d : Claims) → claims_eq c d ≡ true → c ≡ d
unfolding claims_eq
claims_eq_sound c d h = ground (
  arith,
  str_eq_sound c.user_id d.user_id,
  str_eq_sound c.username d.username,
  str_eq_sound c.role d.role,
  str_eq_sound c.typ d.typ,
  int_eq_sound c.issued_at_ms d.issued_at_ms,
  str_eq_sound c.id d.id,
  str_eq_sound c.subject d.subject,
  time_eq_sound c.issued_at d.issued_at,
  time_eq_sound c.expires_at d.expires_at,
  time_eq_sound c.not_before d.not_before,
  str_eq_sound c.issuer d.issuer,
)

cond_some : Bool → Claims → Option Claims
cond_some true c = some c
cond_some false c = none

cond_some-eq : (b : Bool) (c d : Claims) → cond_some b c ≡ some d → (b ≡ true) × (c ≡ d)
unfolding cond_some
cond_some-eq true c d h = (refl, cc)
cond_some-eq false c d h = (cc, cc)

-- What is read of a token whose claims are `c`.
read_one : Claims → Time → Option Claims
unfolding cond_some
read_one c now = cond_some (in_time c now) c

read_one-fits : (c : Claims) (now : Time) → in_time c now ≡ true → read_one c now ≡ some c
unfolding read_one cond_some
read_one-fits c now h = rw h

read_one-in_time : (c d : Claims) (now : Time) → read_one c now ≡ some d → in_time d now ≡ true
unfolding read_one
read_one-in_time c d now h =
    let (fits, same) = cond_some-eq (in_time c now) c d h in
    subst (λ x. in_time x now ≡ true) same fits

-- A library that signs two sets of claims, `a` and `r`.
module _ (a r : Claims) where
  unfoldable pub signed : String → Claims → Option String
  signed key c =
      if claims_eq c a then some "signed-a" else if claims_eq c r then some "signed-r" else none

  unfoldable pub read_claims : String → String → Time → String → Option Claims
  unfolding read_one
  read_claims key issuer now token =
      if str_eq token "signed-a"
      then read_one a now
      else if str_eq token "signed-r"
      then read_one r now
      else none

  signed-eq :
      (key token : String) (c : Claims)
      → signed key c ≡ some token
      → ((c ≡ a) × (token ≡ "signed-a")) ⊎ ((c ≡ r) × (token ≡ "signed-r"))
  unfolding signed
  signed-eq key token c h = ground (arith, claims_eq_sound c a, claims_eq_sound c r)

  pub read_claims-signed :
      (key issuer token : String) (now : Time) (c : Claims)
      → signed key c ≡ some token
      → in_time c now ≡ true
      → read_claims key issuer now token ≡ some c
  unfolding read_claims
  read_claims-signed key issuer token now c h fits = elim (signed-eq key token c h) [
    | inl (same, named) ↦
        rw named (rw same (read_one-fits a now (subst (λ x. in_time x now ≡ true) same fits)))
    | inr (same, named) ↦
        rw named (rw same (read_one-fits r now (subst (λ x. in_time x now ≡ true) same fits)))
  ]

  pub read_claims-in_time :
      (key issuer token : String) (now : Time) (c : Claims)
      → read_claims key issuer now token ≡ some c
      → in_time c now ≡ true
  unfolding read_claims
  read_claims-in_time key issuer token now c h = elim (Bool-cases (str_eq token "signed-a")) [
    | inl first ↦ read_one-in_time a c now (ground (arith, first))
    | inr other ↦ elim (Bool-cases (str_eq token "signed-r")) [
      | inl second ↦ read_one-in_time r c now (ground (arith, other, second))
      | inr unknown ↦ absurd (ground (arith, other, unknown))
    ]
  ]

abbrev pub jwt : JwtLibrary
jwt = record {
  signed_string = signed access_claims refresh_claims;
  parse_with_claims = read_claims access_claims refresh_claims;
  parse_signed = λ key issuer token now c h same fits.
      read_claims-signed access_claims refresh_claims key issuer token now c h fits;
  parsed_in_time = λ key issuer token now c h.
      read_claims-in_time access_claims refresh_claims key issuer token now c h;
}

-- A server that answers every command: what each key holds at each time.
abbrev pub Store : Type 0
Store = Time → String → Option String

abbrev pub empty : Store
empty t k = none

abbrev pub held_until : Time → String → Time → Option String
held_until limit value t = if ltb t limit then some value else none

abbrev pub written : String → String → ℕ → Time → Store → Store
written k v ttl now s t j = if str_eq k j then held_until (now + ttl) v t else s t j

pub written-live :
    (k v : String) (ttl : ℕ) (now t : Time) (s : Store)
    → t + 1000000 ≤ now + ttl
    → written k v ttl now s t k ≡ some v
written-live k v ttl now t s h = ground (arith, str_eq_iff k k)

pub written-other :
    (k v j : String) (ttl : ℕ) (now t : Time) (s : Store)
    → k ≢ j
    → written k v ttl now s t j ≡ s t j
written-other k v j ttl now t s h = ground (arith, str_eq_iff k j)

pub read_both :
    (a b u v : Option String)
    → ◌≡◌ {A = Option (Option String × Option String)} (some (a, b)) (some (u, v))
    → (u ≡ a) × (v ≡ b)
read_both a b u v h = (cc h, cc h)

abbrev pub redis : Redis Store
redis = record {
  live = λ s t k. s t k;
  set = λ k v ttl now s. (true, written k v ttl now s);
  mget = λ k j now s. some (s now k, s now j);
  mget_live = λ k j now s u v h. read_both (s now k) (s now j) u v h;
  set_live = λ k v ttl now t s done after within. written-live k v ttl now t s within;
  set_other = λ k v j ttl now t s apart after. written-other k v j ttl now t s apart;
}

abbrev pub print_uuid : Uuid → String
print_uuid id = if id == 7 then "7" else "0"

abbrev pub parse_uuid : String → Option Uuid
parse_uuid text = if str_eq text "7" then some 7 else none

-- A checker that fails closed.
abbrev pub guard : Authenticator
guard = record { tokens = tokens; checks_revocation = true; revocation_fail_open = false }

abbrev pub ann : User
unfolding draft_user
ann = draft_user (λ s. s) 7 minted "ann" "ann@example.org" "hash:Secret-12" "user"

abbrev pub users : UserRepository (Unit {0})
users = record {
  create = λ user db. (ok tt, db);
  get_by_id = λ id db. if id == 7 then ok ann else err user_not_found;
  get_by_username = λ name db. if str_eq name "ann" then ok ann else err user_not_found;
  get_by_email = λ email db. err user_not_found;
  update = λ user db. (ok tt, db);
}

abbrev pub bcrypt : Bcrypt
bcrypt = record {
  generate = λ password. some (concat "hash:" password);
  matches = λ hash password. str_eq hash (concat "hash:" password);
}

abbrev pub classes : Classes
classes = record {
  is_upper = λ c. leb b'A' c && leb c b'Z';
  is_lower = λ c. leb b'a' c && leb c b'z';
  is_number = λ c. leb b'0' c && leb c b'9';
}

abbrev pub service : AuthService (Unit {0}) Store
service = record {
  users = users;
  redis = redis;
  jwt = jwt;
  tokens = tokens;
  max_token_ttl = 3600000000000;
  access_token_ttl = 900000000000;
  refresh_token_ttl = 3600000000000;
  classes = classes;
  bcrypt = bcrypt;
  to_lower = λ s. s;
  print_uuid = print_uuid;
  parse_uuid = parse_uuid;
}

-- The social tables of a service that nobody has used yet.
abbrev pub unused : SocialTables
unused = record {
  likes = [];
  comments = [];
  subscriptions = [];
  subscriber_counts = λ _. pos 0;
  playlists = [];
  playlist_videos = [];
  watch_later = [];
  notifications = [];
}
