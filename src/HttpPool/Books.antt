-- ===== src/HttpPool/Books.antt =====
-- Counts over the events of a pool, and the lists it keeps.
use webpa_common.Base.{
  ℕ, zero, suc, ◌+◌, ◌≡◌, refl, ap, Bool, true, false, if◌then◌else◌, Option, none, some, List, [],
  ◌∷◌, ◌++◌, map, length, arith,
}
use webpa_common.HttpPool.{
  Asked, panics, asked, Reply, broke, replied, unsent, consume, respond, handle_task, EventType,
  queue, reject, start, finish, Event, pick,
}

abbrev pub is_queue : EventType → Bool
is_queue queue = true
is_queue _ = false

abbrev pub is_start : EventType → Bool
is_start start = true
is_start _ = false

module _ {E : Type 0} where
  -- How many events are of the types of a test.
  abbrev pub tally : (EventType → Bool) → List (Event E) → ℕ
  tally f [] = 0
  tally f (e ∷ es) = (if f e.event_type then 1 else 0) + tally f es

  pub tally-append :
      (f : EventType → Bool) (es fs : List (Event E)) → tally f (es ++ fs) ≡ tally f es + tally f fs
  tally-append f [] fs = omega arith
  tally-append f (e ∷ es) fs = omega (arith, tally-append f es fs)

  abbrev pub with_error : EventType → Option E → List (Option E) → List (Option E)
  with_error finish e rest = e ∷ rest
  with_error queue e rest = rest
  with_error reject e rest = rest
  with_error start e rest = rest

  -- The errors of the events of type finish.
  abbrev pub finish_errors : List (Event E) → List (Option E)
  finish_errors [] = []
  finish_errors (e ∷ es) = with_error e.event_type e.event_error (finish_errors es)

  with_error-append :
      (t : EventType) (e : Option E) (xs ys : List (Option E))
      → with_error t e (xs ++ ys) ≡ with_error t e xs ++ ys
  with_error-append queue e xs ys = refl
  with_error-append reject e xs ys = refl
  with_error-append start e xs ys = refl
  with_error-append finish e xs ys = refl

  pub finish_errors-append :
      (es fs : List (Event E)) → finish_errors (es ++ fs) ≡ finish_errors es ++ finish_errors fs
  finish_errors-append [] fs = refl
  finish_errors-append (e ∷ es) fs =
      rw (finish_errors-append es fs)
        (with_error-append e.event_type e.event_error (finish_errors es) (finish_errors fs))

module _ {R E : Type 0} (transact : R → Reply E) where
  respond-closed_body :
      (q : R) (c : Option (Option E)) (r : Reply E)
      → (respond q c r).closed_body ≡ (respond q c r).got_body
  unfolding respond consume
  respond-closed_body q c (broke e) = refl
  respond-closed_body q c (replied x (some e)) = refl
  respond-closed_body q c (replied none none) = refl
  respond-closed_body q none (replied (some b) none) = refl
  respond-closed_body q (some f) (replied (some b) none) = refl

  pub handle_task-closed_body :
      (a : Asked R E) → (handle_task transact a).closed_body ≡ (handle_task transact a).got_body
  unfolding handle_task unsent
  handle_task-closed_body (panics e) = refl
  handle_task-closed_body (asked q c (some e)) = refl
  handle_task-closed_body (asked none c none) = refl
  handle_task-closed_body (asked (some q) c none) = respond-closed_body q c (transact q)

-- How many elements of a list pass a test.
abbrev pub count : {A : Type 0} → (A → Bool) → List A → ℕ
count f [] = 0
count f (x ∷ xs) = (if f x then 1 else 0) + count f xs

pub count-append :
    {A : Type 0} (f : A → Bool) (xs ys : List A) → count f (xs ++ ys) ≡ count f xs + count f ys
count-append f [] ys = omega arith
count-append f (x ∷ xs) ys = omega (arith, count-append f xs ys)

-- What `pick` takes from a list, together with what it leaves, is that list.
abbrev pub IsPicked : {A : Type 0} → List A → Option (A × List A) → Type 0
IsPicked xs none = Unit
IsPicked {A} xs (some (y, ys)) =
    (length xs ≡ suc (length ys))
    × ((f : A → Bool) → count f xs ≡ (if f y then 1 else 0) + count f ys)

pub pick-IsPicked : {A : Type 0} (i : ℕ) (xs : List A) → IsPicked xs (pick i xs)
unfolding pick
pick-IsPicked i [] = tt
pick-IsPicked zero (x ∷ xs) = (refl, (λ f. refl))
pick-IsPicked (suc i) (x ∷ xs) = grown x xs (pick i xs) (pick-IsPicked i xs)
  where
    grown :
        {A : Type 0} (x : A) (xs : List A) (o : Option (A × List A))
        → IsPicked xs o
        → IsPicked (x ∷ xs) (elim o [ none ↦ none | some (y, ys) ↦ some (y, x ∷ ys) ])
    grown x xs none h = tt
    grown x xs (some (y, ys)) h = (omega (arith, h.0), (λ f. omega (arith, h.1 f)))

pub map-snoc :
    {A B : Type 0} (f : A → B) (xs : List A) (x : A) → map f (xs ++ x ∷ []) ≡ map f xs ++ f x ∷ []
map-snoc f [] x = refl
map-snoc f (y ∷ xs) x = ap (λ zs. f y ∷ zs) (map-snoc f xs x)
