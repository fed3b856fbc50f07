-- ===== src/System/Rules.antt =====
-- Proof rules for actions: triples with an invariant `I` for errors and another, `X`, for panics.
-- The operations of System/Action stay shut, so that `search` finds the rule for each.
use y_delta_crankers.Base.{
  ℕ, ◌≡◌, refl, Bool, true, false, List, [], ◌∷◌, Option, none, some, if◌then◌else◌, All,
}
use y_delta_crankers.System.Types.{Error, client}
use y_delta_crankers.System.Env.{Event, History, Reply, reply, refused}
use y_delta_crankers.System.Action.{
  State, Action, Result, ok, err, panicked, ◌>>=◌, ◌>>◌, attempt, caught, then_with, pure, fail,
  panic, modify, or_fail, or_panic, of_reply, of_result, for_sum, record_event, call, call_noting,
  gets,
}
use y_delta_crankers.System.Outcome.{Yields}

-- What holds after an action: `Q` of a value, `I` after an error, `X` after a panic.
abbrev pub After :
    {A : Type 0}
    → (State → Type 0)
    → (State → Type 0)
    → (A → State → Type 0)
    → Result A × State
    → Type 0
After I X Q (ok a, s) = Q a s
After I X Q (err e, s) = I s
After I X Q (panicked, s) = X s

pub After-mono :
    {A : Type 0} (I X J Y : State → Type 0) (Q R : A → State → Type 0) (r : Result A × State)
    → After I X Q r
    → ((s : State) → I s → J s)
    → ((s : State) → X s → Y s)
    → ((a : A) (s : State) → Q a s → R a s)
    → After J Y R r
After-mono I X J Y Q R (ok a, s) h i x q = q a s h
After-mono I X J Y Q R (err e, s) h i x q = i s h
After-mono I X J Y Q R (panicked, s) h i x q = x s h

-- From `P`, the action ends as `After` says.
pub record Triple (I X : State → Type 0) {A : Type 0} (P : State → Type 0) (m : Action A)
    (Q : A → State → Type 0) : Type 0 where
  pub run : (s : State) → P s → After I X Q (m s)

-- An action that keeps the invariant on every path.
abbrev pub Keeps : (State → Type 0) → (State → Type 0) → {A : Type 0} → Action A → Type 0
Keeps I X m = Triple I X I m (λ _ s. I s)

then_with-After :
    {A B : Type 0} (I X : State → Type 0) (Q : A → State → Type 0) (R : B → State → Type 0)
    (f : A → Action B) (r : Result A × State)
    → After I X Q r
    → ((a : A) → Triple I X (Q a) (f a) R)
    → After I X R (then_with f r)
then_with-After I X Q R f (ok a, t) h k = (k a).run t h
then_with-After I X Q R f (err e, t) h k = h
then_with-After I X Q R f (panicked, t) h k = h

caught-After :
    {A : Type 0} (I X : State → Type 0) (r : Result A × State)
    → After I X (λ _ s. I s) r
    → After I X (λ (_ : Result A) s. I s) (caught r)
caught-After I X (ok a, t) h = h
caught-After I X (err e, t) h = h
caught-After I X (panicked, t) h = h

-- What is known of a value, if there is one.
abbrev pub OfOk : {A : Type 0} → (A → Type 0) → Result A → Type 0
OfOk K (ok a) = K a
OfOk K (err e) = Unit
OfOk K panicked = Unit

caught-OfOk :
    {A : Type 0} (I X : State → Type 0) (K : A → Type 0) (r : Result A × State)
    → After I X (λ a s. I s × K a) r
    → After I X (λ (o : Result A) s. I s × OfOk K o) (caught r)
caught-OfOk I X K (ok a, t) h = h
caught-OfOk I X K (err e, t) h = (h, tt)
caught-OfOk I X K (panicked, t) h = h

module _ {I X : State → Type 0} where
  pub bind-Triple :
      {A B : Type 0} {P : State → Type 0} {R : B → State → Type 0} {m : Action A} {f : A → Action B}
      (Q : A → State → Type 0)
      → Triple I X P m Q
      → ((a : A) → Triple I X (Q a) (f a) R)
      → Triple I X P (m >>= f) R
  unfolding ◌>>=◌
  bind-Triple {R} {m} {f} Q h k = record {
    run = λ s p. then_with-After I X Q R f (m s) (h.run s p) k;
  }

  pub mono-Triple :
      {A : Type 0} {P P' : State → Type 0} {Q : A → State → Type 0} {m : Action A}
      → ((s : State) → P s → P' s)
      → Triple I X P' m Q
      → Triple I X P m Q
  mono-Triple w h = record { run = λ s p. h.run s (w s p) }

  pub weaken-Triple :
      {A : Type 0} {P : State → Type 0} {Q R : A → State → Type 0} {m : Action A}
      → ((a : A) (s : State) → Q a s → R a s)
      → Triple I X P m Q
      → Triple I X P m R
  weaken-Triple {Q} {R} {m} w h = record {
    run = λ s p. After-mono I X I X Q R (m s) (h.run s p) (λ t i. i) (λ t x. x) w;
  }

  -- With what is known of the values already read.
  pub known-Triple :
      {A : Type 0} {K : Type 0} {P : State → Type 0} {m : Action A} {Q : A → State → Type 0}
      → (K → Triple I X P m Q)
      → Triple I X (λ s. P s × K) m Q
  known-Triple h = record { run = λ s k. (h k.1).run s k.0 }

  pub bind-Keeps :
      {A B : Type 0} {m : Action A} {f : A → Action B}
      → Keeps I X m
      → ((a : A) → Keeps I X (f a))
      → Keeps I X (m >>= f)
  bind-Keeps h k = bind-Triple (λ _ s. I s) h k

  pub then-Keeps :
      {A B : Type 0} {m : Action A} {k : Action B} → Keeps I X m → Keeps I X k → Keeps I X (m >> k)
  unfolding ◌>>◌
  then-Keeps h k = bind-Keeps h (λ _. k)

  pub then-Triple :
      {A B : Type 0} {P : State → Type 0} {R : B → State → Type 0} {m : Action A} {k : Action B}
      (Q : A → State → Type 0)
      → Triple I X P m Q
      → ((a : A) → Triple I X (Q a) k R)
      → Triple I X P (m >> k) R
  unfolding ◌>>◌
  then-Triple Q h g = bind-Triple Q h g

  pub if-Triple :
      {A : Type 0} {P : State → Type 0} {Q : A → State → Type 0} {m k : Action A} (b : Bool)
      → (b ≡ true → Triple I X P m Q)
      → (b ≡ false → Triple I X P k Q)
      → Triple I X P (if b then m else k) Q
  if-Triple true h g = h refl
  if-Triple false h g = g refl

  pub if-Keeps :
      {A : Type 0} {m k : Action A} (b : Bool)
      → Keeps I X m
      → Keeps I X k
      → Keeps I X (if b then m else k)
  if-Keeps true h g = h
  if-Keeps false h g = g

  pub pure-Keeps : {A : Type 0} (a : A) → Keeps I X (pure a)
  unfolding pure
  pure-Keeps a = record { run = λ s h. h }

  pub fail-Keeps : {A : Type 0} (e : Error) → Keeps I X {A = A} (fail e)
  unfolding fail
  fail-Keeps e = record { run = λ s h. h }

  pub gets-Keeps : {A : Type 0} (f : State → A) → Keeps I X (gets f)
  unfolding gets
  gets-Keeps f = record { run = λ s h. h }

  pub or_fail-Keeps : {A : Type 0} (o : Option A) (e : Error) → Keeps I X (or_fail o e)
  unfolding or_fail
  or_fail-Keeps none e = fail-Keeps e
  or_fail-Keeps (some a) e = pure-Keeps a

  pub of_reply-Keeps : {A : Type 0} (r : Reply A) → Keeps I X (of_reply r)
  unfolding of_reply
  of_reply-Keeps (reply a) = pure-Keeps a
  of_reply-Keeps (refused e) = fail-Keeps (client e)

  pub call-Keeps :
      {A : Type 0} (e : Event) (f : History → A)
      → ((s : State) → I s → I (record_event e s))
      → Keeps I X (call e f)
  unfolding call
  call-Keeps e f w = record { run = w }

  pub call-Triple :
      {A : Type 0} {P : State → Type 0} {Q : A → State → Type 0} (e : Event) (f : History → A)
      → ((s : State) → P s → Q (f s.history) (record_event e s))
      → Triple I X P (call e f) Q
  unfolding call
  call-Triple e f w = record { run = w }

  pub call_noting-Keeps :
      {A : Type 0} (f : History → A) (e : A → Event)
      → ((a : A) (s : State) → I s → I (record_event (e a) s))
      → Keeps I X (call_noting f e)
  unfolding call_noting
  call_noting-Keeps f e w = record { run = λ s h. w (f s.history) s h }

  pub call_noting-Triple :
      {A : Type 0} {P : State → Type 0} {Q : A → State → Type 0} (f : History → A) (e : A → Event)
      → ((s : State) → P s → Q (f s.history) (record_event (e (f s.history)) s))
      → Triple I X P (call_noting f e) Q
  unfolding call_noting
  call_noting-Triple f e w = record { run = w }

  pub modify-Keeps : (g : State → State) → ((s : State) → I s → I (g s)) → Keeps I X (modify g)
  unfolding modify
  modify-Keeps g w = record { run = w }

  pub attempt-Keeps : {A : Type 0} {m : Action A} → Keeps I X m → Keeps I X (attempt m)
  unfolding attempt
  attempt-Keeps {m} h = record { run = λ s i. caught-After I X (m s) (h.run s i) }

  pub attempt-Triple :
      {A : Type 0} {P : State → Type 0} {m : Action A}
      → Triple I X P m (λ _ s. I s)
      → Triple I X P (attempt m) (λ _ s. I s)
  unfolding attempt
  attempt-Triple {m} h = record { run = λ s p. caught-After I X (m s) (h.run s p) }

  pub attempt-OfOk :
      {A : Type 0} {K : A → Type 0} {P : State → Type 0} {m : Action A}
      → Triple I X P m (λ a s. I s × K a)
      → Triple I X P (attempt m) (λ r s. I s × OfOk K r)
  unfolding attempt
  attempt-OfOk {K} {m} h = record { run = λ s p. caught-OfOk I X K (m s) (h.run s p) }

  pub for_sum-Keeps :
      {A : Type 0} {body : A → Action ℕ} (xs : List A)
      → ((a : A) → Keeps I X (body a))
      → Keeps I X (for_sum body xs)
  unfolding for_sum
  for_sum-Keeps [] h = pure-Keeps _
  for_sum-Keeps (x ∷ xs) h = bind-Keeps (h x) λ n. bind-Keeps (for_sum-Keeps xs h) λ r. pure-Keeps _

  -- A sum over elements of which something is known.
  pub for_sum-All :
      {A : Type 0} {K : A → Type 0} {body : A → Action ℕ} (xs : List A)
      → All K xs
      → ((a : A) → K a → Keeps I X (body a))
      → Keeps I X (for_sum body xs)
  unfolding for_sum
  for_sum-All [] p h = pure-Keeps _
  for_sum-All (x ∷ xs) p h =
      bind-Keeps (h x p.0) λ n. bind-Keeps (for_sum-All xs p.1 h) λ r. pure-Keeps _

  -- From a stronger invariant and a stronger result.
  pub lax-Triple :
      {A : Type 0} {J P : State → Type 0} {Q R : A → State → Type 0} {m : Action A}
      → ((s : State) → J s → I s)
      → ((a : A) (s : State) → Q a s → R a s)
      → Triple J X P m Q
      → Triple I X P m R
  lax-Triple {J} {Q} {R} {m} w v h = record {
    run = λ s p. After-mono J X I X Q R (m s) (h.run s p) w (λ t x. x) v;
  }

  -- A stronger invariant that is kept on every path.
  pub Keeps-under :
      {A : Type 0} {J : State → Type 0} {m : Action A}
      → ((s : State) → J s → I s)
      → Keeps J X m
      → Triple I X J m (λ _ s. J s)
  Keeps-under {J} {m} w h = record {
    run = λ s j.
        After-mono J X I X (λ _ t. J t) (λ _ t. J t) (m s) (h.run s j) w (λ t x. x) (λ a t q. q);
  }

-- A panic leaves its own invariant, which follows from the other.
module _ {I X : State → Type 0} (crash : (s : State) → I s → X s) where
  pub panic-Keeps : {A : Type 0} → Keeps I X {A = A} panic
  unfolding panic
  panic-Keeps = record { run = crash }

  pub or_panic-Keeps : {A : Type 0} (o : Option A) → Keeps I X (or_panic o)
  unfolding or_panic
  or_panic-Keeps none = panic-Keeps
  or_panic-Keeps (some a) = pure-Keeps a

  pub of_result-Keeps : {A : Type 0} (r : Result A) → Keeps I X (of_result r)
  unfolding of_result
  of_result-Keeps (ok a) = pure-Keeps a
  of_result-Keeps (err e) = fail-Keeps e
  of_result-Keeps panicked = panic-Keeps

  -- The value of a pure computation, with what it satisfies.
  pub of_result-Triple :
      {A C : Type 0} {P : A → Type 0} {r : Result A}
      → Yields C P r
      → Triple I X I (of_result r) (λ a s. I s × P a)
  unfolding of_result pure fail panic
  of_result-Triple {r = ok a} y = record { run = λ s i. (i, y.run) }
  of_result-Triple {r = err e} y = record { run = λ s i. i }
  of_result-Triple {r = panicked} y = record { run = λ s i. crash s i }
