-- ===== src/Domain/Results.antt =====
-- What a fallible computation gives, if it does not fail.
use task_management.Domain.Errors.{Result, ok, err, ◌>>=ᵣ◌}

-- A result, if there is one, satisfies `Q`.
abbrev pub Holds : {A : Type 0} → Result A → (A → Type 0) → Type 0
Holds (ok a) Q = Q a
Holds (err e) Q = Unit

pub record Gives {A : Type 0} (r : Result A) (Q : A → Type 0) : Type 0 where
  pub at : Holds r Q

pub gives : {A : Type 0} {Q : A → Type 0} (a : A) → Q a → Gives (ok a) Q
gives a h = record { at = h }

module _ {A B : Type 0} where
  holds-bind :
      (r : Result A) (f : A → Result B) (Q : B → Type 0)
      → Holds r (λ a. Gives (f a) Q)
      → Holds (r >>=ᵣ f) Q
  unfolding ◌>>=ᵣ◌
  holds-bind (ok a) f Q h = h.at
  holds-bind (err e) f Q h = tt

  pub gives-bind :
      {r : Result A} {f : A → Result B} {Q : B → Type 0}
      → Gives r (λ a. Gives (f a) Q)
      → Gives (r >>=ᵣ f) Q
  gives-bind {r} {f} {Q} h = record { at = holds-bind r f Q h.at }

module _ {A : Type 0} {Q : A → Type 0} where
  pub gives-any : (r : Result A) → ((a : A) → Q a) → Gives r Q
  gives-any (ok a) h = record { at = h a }
  gives-any (err e) h = record { at = tt }
