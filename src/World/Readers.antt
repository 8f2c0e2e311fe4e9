-- ===== src/World/Readers.antt =====
-- Actions that read the database and may throw, and touch nothing.
use arkride_backend.Common.{◌≡◌, refl, Bool, true, false, Option, some, none}
use mathlib.Core.Path.{subst₂, sym}
use arkride_backend.Platform.{Contents}
use arkride_backend.World.State.{World, Db}
use arkride_backend.World.Monad.{
  Action, Outcome, returned, thrown, Error, found_or, throw_if, return, asks, ◌>>=◌,
}

-- The outcome does not depend on what Redis holds, and the state is left as it is.
abbrev pub IsReader : {A : Type 0} → Action A → Type 0
IsReader m =
    (w : World) (c : Contents) → m (record w { redis = c }) ≡ ((m w).0, record w { redis = c })

pub return-IsReader : {A : Type 0} (a : A) → IsReader (return a)
return-IsReader a w c = refl

pub found_or-IsReader : {A : Type 0} (x : Error) (o : Option A) → IsReader (found_or x o)
found_or-IsReader x none w c = refl
found_or-IsReader x (some a) w c = refl

pub throw_if-IsReader : (b : Bool) (x : Error) → IsReader (throw_if b x)
throw_if-IsReader true x w c = refl
throw_if-IsReader false x w c = refl

pub asks-IsReader : {A : Type 0} (f : Db → A) → IsReader (asks (λ w. f w.db))
asks-IsReader f w c = refl

-- What a call returns decides how a chain goes on.
bind-outcome :
    {A B : Type 0} (k : A → Action B) (w : World) (c : Contents) (o : Outcome A)
    → ((a : A) → IsReader (k a))
    → ((λ (_ : World). (o, record w { redis = c })) >>= k) w
      ≡ ((((λ (_ : World). (o, w)) >>= k) w).0, record w { redis = c })
bind-outcome k w c (returned a) g = g a w c
bind-outcome k w c (thrown x) g = refl

pub >>=-IsReader :
    {A B : Type 0} (m : Action A) (k : A → Action B)
    → IsReader m
    → ((a : A) → IsReader (k a))
    → IsReader (m >>= k)
>>=-IsReader {A} m k h g w c =
    subst₂
      (λ (o p : Outcome A × World).
        ((λ (_ : World). o) >>= k) w ≡ ((((λ (_ : World). p) >>= k) w).0, record w { redis = c }))
      (sym (h w c)) (sym (h w w.redis)) (bind-outcome k w c (m w).0 g)

pub ruleset readers =
    (return-IsReader, found_or-IsReader, throw_if-IsReader, asks-IsReader, >>=-IsReader)
