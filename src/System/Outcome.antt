-- ===== src/System/Outcome.antt =====
-- Pure computations that may fail: `?` and `with_context` on a result.
use y_delta_crankers.Base.{Option, none, some, ◌≡◌, refl, Bool, true, false, if◌then◌else◌}
use y_delta_crankers.System.Types.{Error}
use y_delta_crankers.System.Action.{Result, ok, err, panicked}

infixl 5 ◌>>=◌
unfoldable pub ◌>>=◌ : {A B : Type 0} → Result A → (A → Result B) → Result B
ok a >>= f = f a
err e >>= f = err e
panicked >>= f = panicked

-- `ok_or_else(..)`
abbrev pub ok_or : {A : Type 0} → Option A → Error → Result A
ok_or none e = err e
ok_or (some a) e = ok a

-- `with_context(..)`
abbrev pub with_context : {A : Type 0} → (Error → Error) → Result A → Result A
with_context f (ok a) = ok a
with_context f (err e) = err (f e)
with_context f panicked = panicked

-- The predicate holds of the value if there is one; `C` is what a panic would show, so ⊥ rules it
-- out.
abbrev pub Holds : {A : Type 0} → Type 0 → (A → Type 0) → Result A → Type 0
Holds C P (ok a) = P a
Holds C P (err e) = Unit
Holds C P panicked = C

pub record Yields {A : Type 0} (C : Type 0) (P : A → Type 0) (r : Result A) : Type 0 where
  pub run : Holds C P r

-- Nothing said of the value.
abbrev pub Any : {A : Type 0} → A → Type 0
Any a = Unit

bind-Holds :
    {A B : Type 0} (C : Type 0) (P : B → Type 0) (Q : A → Type 0) (m : Result A) (f : A → Result B)
    → Holds C Q m
    → ((a : A) → Q a → Yields C P (f a))
    → Holds C P (m >>= f)
unfolding ◌>>=◌
bind-Holds C P Q (ok a) f q h = (h a q).run
bind-Holds C P Q (err e) f q h = tt
bind-Holds C P Q panicked f q h = q

with_context-Holds :
    {A : Type 0} (C : Type 0) (P : A → Type 0) (f : Error → Error) (r : Result A)
    → Holds C P r
    → Holds C P (with_context f r)
with_context-Holds C P f (ok a) h = h
with_context-Holds C P f (err e) h = tt
with_context-Holds C P f panicked h = h

mono-Holds :
    {A : Type 0} (C : Type 0) (P Q : A → Type 0) (r : Result A)
    → ((a : A) → P a → Q a)
    → Holds C P r
    → Holds C Q r
mono-Holds C P Q (ok a) w h = w a h
mono-Holds C P Q (err e) w h = tt
mono-Holds C P Q panicked w h = h

module _ {A : Type 0} {C : Type 0} where
  pub ok-Yields : {P : A → Type 0} {a : A} → P a → Yields C P (ok a)
  ok-Yields p = record { run = p }

  pub err-Yields : {P : A → Type 0} (e : Error) → Yields C P (err e)
  err-Yields e = record { run = tt }

  pub bind-Yields :
      {B : Type 0} {P : B → Type 0} (Q : A → Type 0) {m : Result A} {f : A → Result B}
      → Yields C Q m
      → ((a : A) → Q a → Yields C P (f a))
      → Yields C P (m >>= f)
  bind-Yields {P} Q {m} {f} q h = record { run = bind-Holds C P Q m f q.run h }

  pub ok_or-Yields : {o : Option A} (e : Error) → Yields C (λ a. o ≡ some a) (ok_or o e)
  ok_or-Yields {o = none} e = err-Yields e
  ok_or-Yields {o = some a} e = ok-Yields refl

  pub mono-Yields :
      {P Q : A → Type 0} {r : Result A} → ((a : A) → P a → Q a) → Yields C P r → Yields C Q r
  mono-Yields {P} {Q} {r} w h = record { run = mono-Holds C P Q r w h.run }

  pub found-Yields : (o : Option A) (e : Error) → Yields C Any (ok_or o e)
  found-Yields o e = mono-Yields (λ a h. tt) (ok_or-Yields e)

  pub with_context-Yields :
      {P : A → Type 0} (f : Error → Error) {r : Result A}
      → Yields C P r
      → Yields C P (with_context f r)
  with_context-Yields {P} f {r} h = record { run = with_context-Holds C P f r h.run }

  -- A test that ends the computation one way or the other.
  pub if-Yields :
      {P : A → Type 0} (b : Bool) {m k : Result A}
      → (b ≡ true → Yields C P m)
      → (b ≡ false → Yields C P k)
      → Yields C P (if b then m else k)
  if-Yields true h g = h refl
  if-Yields false h g = g refl

-- A value is what the computation gave.
pub self-Yields : {A : Type 0} (r : Result A) → Yields (Unit {0}) (λ a. r ≡ ok a) r
self-Yields (ok a) = ok-Yields refl
self-Yields (err e) = err-Yields e
self-Yields panicked = record { run = tt }
