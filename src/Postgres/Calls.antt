-- ===== src/Postgres/Calls.antt =====
-- How code that calls the database is put together, and how a property of the world is carried
-- through it.
use video_streaming_service.Common.{
  ◌⊎◌, inl, inr, ◌≡◌, refl, Bool, true, false, List, [], ◌∷◌, Result, ok, err, Error, subst, sym,
  ap, ◌∙◌, database_error, ok-injective, if◌then◌else◌,
}
use video_streaming_service.Postgres.{World, Action}

module _ {A B : Type 0} where
  -- The rest of the code runs only after a result.
  abbrev pub then_run : Result A → (A → Action B) → Action B
  then_run (ok a) f w = f a w
  then_run (err e) f w = (err e, w)

  infixl 5 ◌>>=◌ ◌>>◌
  unfoldable pub ◌>>=◌ : Action A → (A → Action B) → Action B
  ◌>>=◌ m f w = let (r, w') = m w in then_run r f w'

  abbrev pub ◌>>◌ : Action A → Action B → Action B
  m >> n = m >>= λ _. n

module _ {A B : Type 0} where
  -- What a chain that returns has gone through.
  pub >>=-eq-ok :
      (m : Action A) (f : A → Action B) (w : World) {b : B}
      → ((m >>= f) w).0 ≡ ok b
      → (a : A) × ((m w).0 ≡ ok a) × ((f a (m w).1).0 ≡ ok b) × ((m >>= f) w ≡ f a (m w).1)
  unfolding ◌>>=◌
  >>=-eq-ok m f w h = let (r, w') = m w in returned r w' h
    where
      returned :
          (r : Result A) (v : World) {b : B}
          → (then_run r f v).0 ≡ ok b
          → (a : A) × (r ≡ ok a) × ((f a v).0 ≡ ok b) × (then_run r f v ≡ f a v)
      returned (ok a) v h = (a, refl, h, refl)
      returned (err e) v h = cc

  -- A chain stops at its first part or is what follows it.
  pub >>=-cases :
      (m : Action A) (f : A → Action B) (w : World)
      → ((e : Error) × ((m >>= f) w ≡ (err e, (m w).1))) ⊎ ((a : A) × ((m >>= f) w ≡ f a (m w).1))
  unfolding ◌>>=◌
  >>=-cases m f w = let (r, w') = m w in either r w'
    where
      either :
          (r : Result A) (v : World)
          → ((e : Error) × (then_run r f v ≡ (err e, v))) ⊎ ((a : A) × (then_run r f v ≡ f a v))
      either (ok a) v = inr (a, refl)
      either (err e) v = inl (e, refl)

  -- A chain whose first part fails.
  pub >>=-eq-err :
      (m : Action A) (f : A → Action B) (w : World) (e : Error)
      → (m w).0 ≡ err e
      → (m >>= f) w ≡ (err e, (m w).1)
  unfolding ◌>>=◌
  >>=-eq-err m f w e h = ap (λ r. then_run r f (m w).1) h

module _ {A : Type 0} where
  unfoldable pub pure : A → Action A
  pure a w = (ok a, w)

  unfoldable pub raise : Error → Action A
  raise e w = (err e, w)

  unfoldable pub give : Result A → Action A
  give r w = (r, w)

-- A call whose error is logged and passed over.
unfoldable pub attempt : Action Unit → Action Unit
attempt m w = (ok tt, (m w).1)

module _ {A : Type 0} where
  trip : List Bool → Error → Action A → Action A
  trip [] lost m w = m w
  trip (true ∷ faults) lost m w = (err lost, record w { faults = faults })
  trip (false ∷ faults) lost m w = m (record w { faults = faults })

  -- One round trip, which the environment may refuse.
  unfoldable pub round_trip : Error → Action A → Action A
  unfolding trip
  round_trip lost m w = trip w.faults lost m w

-- Begin, the statements, and Commit or, after an error, Rollback: nothing is written but by a commit
-- that is carried out.
module _ {A : Type 0} where
  restored : World → Result A × World → Result A × World
  restored before (err e, w) = (err e, record before { faults = w.faults })
  restored before (ok a, w) = (ok a, w)

  commit : World → Result A × World → Result A × World
  unfolding restored round_trip pure
  commit before (err e, w) = restored before (err e, w)
  commit before (ok a, w) = restored before (round_trip database_error (pure a) w)

  unfoldable pub transaction : Action A → Action A
  unfolding commit
  transaction m = round_trip database_error (λ w. commit w (m w))

-- Whether the next call is carried out.
pub fault_cases :
    (faults : List Bool)
    → ((rest : List Bool) × (faults ≡ true ∷ rest))
      ⊎ ((faults ≡ []) ⊎ ((rest : List Bool) × (faults ≡ false ∷ rest)))
fault_cases [] = inr (inl refl)
fault_cases (true ∷ fs) = inl (fs, refl)
fault_cases (false ∷ fs) = inr (inr (fs, refl))

-- `m` keeps `P`, whatever its outcome.
pub record Keeps {A : Type 0} (P : World → Type 0) (m : Action A) : Type 0 where
  pub run : (w : World) → P w → P (m w).1

-- Where `m` returns, `Q` holds.
pub record Ends {A : Type 0} (Q : World → Type 0) (m : Action A) : Type 0 where
  pub run : (w : World) (a : A) → (m w).0 ≡ ok a → Q (m w).1

module _ {A : Type 0} {P : World → Type 0} where
  pub pure-Keeps : (a : A) → Keeps P (pure a)
  unfolding pure
  pure-Keeps a = record { run = λ w h. h }

  pub raise-Keeps : (e : Error) → Keeps P (raise {A = A} e)
  unfolding raise
  raise-Keeps e = record { run = λ w h. h }

  pub give-Keeps : (r : Result A) → Keeps P (give r)
  unfolding give
  give-Keeps r = record { run = λ w h. h }

  pub if-Keeps : (b : Bool) (m n : Action A) → Keeps P m → Keeps P n → Keeps P (if b then m else n)
  if-Keeps true m n hm hn = hm
  if-Keeps false m n hm hn = hn

  pub raise-Ends : (e : Error) → Ends P (raise {A = A} e)
  unfolding raise
  raise-Ends e = record { run = λ w a h. cc }

  pub if-Ends : (b : Bool) (m n : Action A) → Ends P m → Ends P n → Ends P (if b then m else n)
  if-Ends true m n hm hn = hm
  if-Ends false m n hm hn = hn

-- A predicate on the tables survives a round trip that what is carried out keeps.
pub round_trip-Keeps :
    {A : Type 0} {P : World → Type 0} (lost : Error) (m : Action A)
    → ((w : World) (faults : List Bool) → P w → P (record w { faults = faults }))
    → ((w : World) → P w → P (m w).1)
    → Keeps P (round_trip lost m)
unfolding round_trip trip
round_trip-Keeps {A} {P} lost m tables hm = record { run = λ w h. trip-Keeps w.faults w h }
  where
    trip-Keeps : (faults : List Bool) (w : World) → P w → P (trip faults lost m w).1
    trip-Keeps [] w h = hm w h
    trip-Keeps (true ∷ fs) w h = tables w fs h
    trip-Keeps (false ∷ fs) w h = hm (record w { faults = fs }) (tables w fs h)

-- It survives a transaction, rolled back or not.
pub transaction-Keeps :
    {A : Type 0} {P : World → Type 0} (m : Action A)
    → ((w : World) (faults : List Bool) → P w → P (record w { faults = faults }))
    → Keeps P m
    → Keeps P (transaction m)
unfolding transaction commit restored
transaction-Keeps {A} {P} m tables hm =
    round_trip-Keeps _ _ tables (λ w h. commit-Keeps w (m w) h (hm.run w h))
  where
    restored-Keeps : (w : World) (o : Result A × World) → P w → P o.1 → P (restored w o).1
    restored-Keeps w (ok a, w') h h' = h'
    restored-Keeps w (err e, w') h h' = tables w w'.faults h

    commit-Keeps : (w : World) (o : Result A × World) → P w → P o.1 → P (commit w o).1
    commit-Keeps w (ok a, w') h h' =
        restored-Keeps w _ h
          ((round_trip-Keeps database_error (pure a) tables (pure-Keeps a).run).run w' h')
    commit-Keeps w (err e, w') h h' = tables w w'.faults h

pub attempt-Keeps : {P : World → Type 0} (m : Action Unit) → Keeps P m → Keeps P (attempt m)
unfolding attempt
attempt-Keeps m hm = record { run = λ w h. hm.run w h }

module _ {A B : Type 0} {P : World → Type 0} where
  then_run-Keeps :
      (r : Result A) (f : A → Action B)
      → ((a : A) → Keeps P (f a))
      → (w : World) → P w
      → P (then_run r f w).1
  then_run-Keeps (ok a) f hf w h = (hf a).run w h
  then_run-Keeps (err e) f hf w h = h

  pub bind-Keeps :
      (m : Action A) (f : A → Action B) → Keeps P m → ((a : A) → Keeps P (f a)) → Keeps P (m >>= f)
  unfolding ◌>>=◌
  bind-Keeps m f hm hf = record {
    run = λ w h. let (r, w') = m w in then_run-Keeps r f hf w' (hm.run w h);
  }

  then_run-Ends :
      (r : Result A) (f : A → Action B)
      → ((a : A) → r ≡ ok a → Ends P (f a))
      → (w : World) (b : B) → (then_run r f w).0 ≡ ok b
      → P (then_run r f w).1
  then_run-Ends (ok a) f hf w b h = (hf a refl).run w b h
  then_run-Ends (err e) f hf w b h = cc

  -- The code ends as its last part does.
  pub bind-Ends : (m : Action A) (f : A → Action B) → ((a : A) → Ends P (f a)) → Ends P (m >>= f)
  unfolding ◌>>=◌
  bind-Ends m f hf = record {
    run = λ w b h. let (r, w') = m w in then_run-Ends r f (λ a _. hf a) w' b h;
  }

  -- What the first part establishes and the rest keeps.
  then_run-Ends_kept :
      (r : Result A) (f : A → Action B) (w : World) (b : B)
      → ((a : A) → r ≡ ok a → P w)
      → ((a : A) → Keeps P (f a))
      → (then_run r f w).0 ≡ ok b
      → P (then_run r f w).1
  then_run-Ends_kept (ok a) f w b hp hf h = (hf a).run w (hp a refl)
  then_run-Ends_kept (err e) f w b hp hf h = cc

  pub bind-Ends_kept :
      (m : Action A) (f : A → Action B) → Ends P m → ((a : A) → Keeps P (f a)) → Ends P (m >>= f)
  unfolding ◌>>=◌
  bind-Ends_kept m f hm hf = record {
    run = λ w b h. let (r, w') = m w in then_run-Ends_kept r f w' b (hm.run w) hf h;
  }

  -- The code ends as its last part does, where only one result of the first part is possible.
  pub bind-Ends_value :
      (m : Action A) (f : A → Action B) (a : A)
      → ((w : World) → (m w).0 ≡ ok a)
      → Ends P (f a)
      → Ends P (m >>= f)
  unfolding ◌>>=◌
  bind-Ends_value m f a hm hf = record {
    run = λ w b h.
        let (r, w') = m w in
        then_run-Ends r f (λ a' e. subst (λ x. Ends P (f x)) (ok-injective (sym (hm w) ∙ e)) hf) w'
          b h;
  }

pub ruleset keeps_rules = (pure-Keeps, raise-Keeps, give-Keeps, if-Keeps, attempt-Keeps, bind-Keeps)

pub ruleset ends_rules = (raise-Ends, if-Ends, bind-Ends)
