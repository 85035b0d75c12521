-- ===== src/RateLimit/Concurrency.antt =====
-- ConcurrencyLimitMiddleware of internal/middleware/rate_limiter.go for one caller, as the requests of
-- that caller interleave.
use video_streaming_service.Common.{
  ℕ, zero, suc, ℤ, pos, negsuc, lt_int, ◌+◌, ◌≤◌, ◌≡◌, refl, Bool, true, false, List, [], ◌∷◌, any,
  if◌then◌else◌, arith,
}

-- The counter of the caller, and its requests in flight: those that were let in, those that were let in
-- without an answer of the server, and those that were refused and have not returned.
pub record Slots : Type 0 where
  pub counter : ℤ
  pub admitted : ℕ
  pub unmetered : ℕ
  pub refused : ℕ

-- A step of some request, or of the server. `reaches` says that the server carries a command out.
pub data Event : Type 0 where
  -- INCR is answered, and the request goes on or is refused
  enters : Event
  -- INCR is not answered: the request goes on, and will not release
  enters_unanswered : (reaches : Bool) → Event
  -- a request that was let in returns, and DECR is sent
  leaves : (reaches : Bool) → Event
  -- the same of one that was refused
  withdraws : (reaches : Bool) → Event
  -- a request that went on without an answer returns
  leaves_unmetered : Event
  -- a minute without a new request: the key expires
  lapses : Event

unfoldable pub incr : ℤ → ℤ
incr (pos n) = pos (suc n)
incr (negsuc zero) = pos 0
incr (negsuc (suc n)) = negsuc n

unfoldable pub decr : ℤ → ℤ
decr (pos zero) = negsuc 0
decr (pos (suc n)) = pos n
decr (negsuc n) = negsuc (suc n)

abbrev pub released : Bool → ℤ → ℤ
released reaches c = if reaches then decr c else c

-- A request that is not there does not return.
leave : ℕ → Bool → Slots → Slots
leave zero reaches s = s
leave (suc n) reaches s = record s { counter = released reaches s.counter; admitted = n }

withdraw : ℕ → Bool → Slots → Slots
withdraw zero reaches s = s
withdraw (suc n) reaches s = record s { counter = released reaches s.counter; refused = n }

leave_unmetered : ℕ → Slots → Slots
leave_unmetered zero s = s
leave_unmetered (suc n) s = record s { unmetered = n }

unfoldable pub step : ℕ → Event → Slots → Slots
unfolding incr decr leave withdraw leave_unmetered
step max_concurrent enters s =
    let current = incr s.counter in
    if lt_int (pos max_concurrent) current
    then record s { counter = current; refused = suc s.refused }
    else record s { counter = current; admitted = suc s.admitted }
step max_concurrent (enters_unanswered reaches) s = record s {
  counter = if reaches then incr s.counter else s.counter;
  unmetered = suc s.unmetered;
}
step max_concurrent (leaves reaches) s = leave s.admitted reaches s
step max_concurrent (withdraws reaches) s = withdraw s.refused reaches s
step max_concurrent leaves_unmetered s = leave_unmetered s.unmetered s
step max_concurrent lapses s = record s { counter = pos 0 }

unfoldable pub run_steps : ℕ → List Event → Slots → Slots
run_steps max_concurrent [] s = s
run_steps max_concurrent (e ∷ es) s = run_steps max_concurrent es (step max_concurrent e s)

abbrev pub no_requests : Slots
no_requests = record { counter = pos 0; admitted = 0; unmetered = 0; refused = 0 }

abbrev pub is_lapse : Event → Bool
is_lapse lapses = true
is_lapse _ = false

-- The counter counts at least the metered requests in flight, and no more of them are let in than the
-- limit.
record IsMetered (max_concurrent : ℕ) (s : Slots) : Type 0 where
  pub covers : lt_int s.counter (pos (s.admitted + s.refused)) ≡ false
  pub bounded : s.admitted ≤ max_concurrent

leave-IsMetered :
    (max n : ℕ) (reaches : Bool) (s : Slots)
    → s.admitted ≡ n
    → IsMetered max s
    → IsMetered max (leave n reaches s)
unfolding leave decr
leave-IsMetered max zero reaches s here h = h
leave-IsMetered max (suc n) true s here h = ground (arith, here, h)
leave-IsMetered max (suc n) false s here h = ground (arith, here, h)

withdraw-IsMetered :
    (max n : ℕ) (reaches : Bool) (s : Slots)
    → s.refused ≡ n
    → IsMetered max s
    → IsMetered max (withdraw n reaches s)
unfolding withdraw decr
withdraw-IsMetered max zero reaches s here h = h
withdraw-IsMetered max (suc n) true s here h = ground (arith, here, h)
withdraw-IsMetered max (suc n) false s here h = ground (arith, here, h)

leave_unmetered-IsMetered :
    (max n : ℕ) (s : Slots) → IsMetered max s → IsMetered max (leave_unmetered n s)
unfolding leave_unmetered
leave_unmetered-IsMetered max zero s h = h
leave_unmetered-IsMetered max (suc n) s h = ground (arith, h)

step-IsMetered :
    (max : ℕ) (e : Event) (s : Slots)
    → is_lapse e ≡ false
    → IsMetered max s
    → IsMetered max (step max e s)
unfolding step incr
step-IsMetered max enters s lasting h = ground (arith, h)
step-IsMetered max (enters_unanswered reaches) s lasting h = ground (arith, h)
step-IsMetered max (leaves reaches) s lasting h = leave-IsMetered max s.admitted reaches s refl h
step-IsMetered max (withdraws reaches) s lasting h =
    withdraw-IsMetered max s.refused reaches s refl h
step-IsMetered max leaves_unmetered s lasting h = leave_unmetered-IsMetered max s.unmetered s h
step-IsMetered max lapses s lasting h = cc lasting

run_steps-IsMetered :
    (max : ℕ) (es : List Event) (s : Slots)
    → any is_lapse es ≡ false
    → IsMetered max s
    → IsMetered max (run_steps max es s)
unfolding run_steps
run_steps-IsMetered max [] s lasting h = h
run_steps-IsMetered max (e ∷ es) s lasting h =
    run_steps-IsMetered max es (step max e s) (ground (arith, lasting))
      (step-IsMetered max e s (ground (arith, lasting)) h)

-- However the requests of one caller interleave, and whichever commands the server misses, no more of
-- them are in flight by an answer of the server than the limit, while the key does not expire.
pub run_steps-bounded :
    (max_concurrent : ℕ) (es : List Event)
    → any is_lapse es ≡ false
    → (run_steps max_concurrent es no_requests).admitted ≤ max_concurrent
run_steps-bounded max_concurrent es lasting =
    (run_steps-IsMetered max_concurrent es no_requests lasting (ground arith)).bounded
