-- ===== src/Auth/Action.antt =====
-- An asynchronous method of the auth service: it acts on the state and returns or throws. What was
-- written before a throw stays written.
use demo_t.Base.{Bool, true, false, ◌≡◌, refl, if◌then◌else◌}
use demo_t.Errors.Exceptions.{Exception, Result, ok, err}
use demo_t.Auth.Rows.{World}

abbrev pub Action : Type 0 → Type 0
Action A = World → Result A × World

abbrev pub then_run : {A B : Type 0} → Result A × World → (A → Action B) → Result B × World
then_run (ok a, w) f = f a w
then_run (err e, w) f = (err e, w)

abbrev pub else_run : {A : Type 0} → Result A × World → (Exception → Action A) → Result A × World
else_run (ok a, w) f = (ok a, w)
else_run (err e, w) f = f e w

infixl 5 ◌>>=◌ ◌>>◌
abbrev pub ◌>>=◌ : {A B : Type 0} → Action A → (A → Action B) → Action B
◌>>=◌ m f w = then_run (m w) f

abbrev pub ◌>>◌ : {A B : Type 0} → Action A → Action B → Action B
m >> k = m >>= λ _. k

abbrev pub pure : {A : Type 0} → A → Action A
pure a w = (ok a, w)

abbrev pub throw : {A : Type 0} → Exception → Action A
throw e w = (err e, w)

-- `try { m } catch (error) { handler(error) }`
abbrev pub try_catch : {A : Type 0} → Action A → (Exception → Action A) → Action A
try_catch m handler w = else_run (m w) handler

-- A result computed without touching the state.
abbrev pub lift : {A : Type 0} → Result A → Action A
lift r w = (r, w)

-- What a result and the state after it satisfy: `Q` of the value and the state if the call
-- returned, `E` of the exception and the state if it threw.
abbrev pub Holds :
    {A : Type 0} → (A → World → Type 0) → (Exception → World → Type 0) → Result A × World → Type 0
Holds Q E (ok a, w) = Q a w
Holds Q E (err e, w) = E e w

pub record Post {A : Type 0} (Q : A → World → Type 0) (E : Exception → World → Type 0)
    (x : Result A × World) : Type 0 where
  pub holds : Holds Q E x

module _ {A B : Type 0} {Q : B → World → Type 0} {E : Exception → World → Type 0} where
  then_run-Post :
      (x : Result A × World) (f : A → Action B)
      → Post (λ a w. Post Q E (f a w)) E x
      → Post Q E (then_run x f)
  then_run-Post (ok a, w) f h = h.holds
  then_run-Post (err e, w) f h = record { holds = h.holds }

  -- The rule for a sequence: after the first part the rest establishes what is wanted.
  pub seq-Post :
      (m : Action A) {f : A → Action B} {w : World}
      → Post (λ a w'. Post Q E (f a w')) E (m w)
      → Post Q E ((m >>= f) w)
  seq-Post m {f} {w} h = then_run-Post (m w) f h

module _ {A : Type 0} {Q : A → World → Type 0} {E : Exception → World → Type 0} where
  else_run-Post :
      (x : Result A × World) (handler : Exception → Action A)
      → Post Q (λ e w. Post Q E (handler e w)) x
      → Post Q E (else_run x handler)
  else_run-Post (ok a, w) handler h = record { holds = h.holds }
  else_run-Post (err e, w) handler h = h.holds

  pub try_catch-Post :
      (m : Action A) {handler : Exception → Action A} {w : World}
      → Post Q (λ e w'. Post Q E (handler e w')) (m w)
      → Post Q E (try_catch m handler w)
  try_catch-Post m {handler} {w} h = else_run-Post (m w) handler h

module _ {A : Type 0} {Q : A → World → Type 0} {E : Exception → World → Type 0} where
  -- A result computed without touching the state.
  pub lift-Post :
      (r : Result A) (w : World)
      → ((a : A) → r ≡ ok a → Q a w)
      → ((e : Exception) → r ≡ err e → E e w)
      → Post Q E (lift r w)
  lift-Post (ok a) w q e = record { holds = q a refl }
  lift-Post (err x) w q e = record { holds = e x refl }

module _ {A : Type 0} {Q : A → World → Type 0} {E : Exception → World → Type 0} where
  -- A result that is known.
  pub known-Post : (r : Result A) (a : A) (w : World) → r ≡ ok a → Q a w → Post Q E (lift r w)
  known-Post r a w e q = rw e (record { holds = q })

module _ {A : Type 0} {R Q : A → World → Type 0} {F E : Exception → World → Type 0} where
  pub Post-mono :
      (x : Result A × World)
      → Post R F x
      → ((a : A) (w : World) → R a w → Q a w)
      → ((e : Exception) (w : World) → F e w → E e w)
      → Post Q E x
  Post-mono (ok a, w) h f g = record { holds = f a w h.holds }
  Post-mono (err e, w) h f g = record { holds = g e w h.holds }

-- What holds of every result.
pub Post-any :
    {A : Type 0} {Q : A → World → Type 0} {E : Exception → World → Type 0} (x : Result A × World)
    → ((a : A) (w : World) → Q a w)
    → ((e : Exception) (w : World) → E e w)
    → Post Q E x
Post-any (ok a, w) f g = record { holds = f a w }
Post-any (err e, w) f g = record { holds = g e w }

-- The rule for a branch.
pub if-Post :
    {A : Type 0} {Q : A → World → Type 0} {E : Exception → World → Type 0} (t : Bool)
    (m n : Action A) (w : World)
    → (t ≡ true → Post Q E (m w))
    → (t ≡ false → Post Q E (n w))
    → Post Q E ((if t then m else n) w)
if-Post true m n w f g = f refl
if-Post false m n w f g = g refl

-- The rule for a `catch` that throws on, with the exception changed.
pub rethrow-Post :
    {A : Type 0} {Q : A → World → Type 0} {E : Exception → World → Type 0} (m : Action A)
    (g : Exception → Exception) (w : World)
    → Post Q (λ e w'. E (g e) w') (m w)
    → Post Q E (try_catch m (λ e. throw (g e)) w)
rethrow-Post {Q} {E} m g w h =
    try_catch-Post m (Post-mono (m w) h (λ _ _ q. q) (λ e w' k. record { holds = k }))

-- The rule for a first part that does not matter.
pub seq-any :
    {A B : Type 0} {Q : B → World → Type 0} {E : Exception → World → Type 0} (m : Action A)
    {f : A → Action B} (w : World)
    → ((a : A) (w' : World) → Post Q E (f a w'))
    → ((e : Exception) (w' : World) → E e w')
    → Post Q E ((m >>= f) w)
seq-any m w f k = seq-Post m (Post-any (m w) f k)
