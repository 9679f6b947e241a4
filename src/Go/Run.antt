-- ===== src/Go/Run.antt =====
-- A Go call that works on a shared state: it returns, panics, or waits for a mutex that is held.
use bapi.Base.{refl, ◌≡◌, Option, none, some}
use bapi.Go.Text.{Bytes}
use bapi.Go.Error.{GoError}

-- What was written before a panic stays written.
pub data Run (S A : Type 0) : Type 0 where
  returned : A → S → Run S A
  panicked : Bytes → S → Run S A
  blocked : S → Run S A

abbrev pub Action : Type 0 → Type 0 → Type 0
Action S A = S → Run S A

-- A Go function's pair `(value, err)`; both parts reach the caller.
abbrev pub Fallible : Type 0 → Type 0
Fallible A = A × Option GoError

abbrev pub pure : {S A : Type 0} → A → Action S A
pure a s = returned a s

abbrev pub panic : {S A : Type 0} → Bytes → Action S A
panic m s = panicked m s

-- What follows a call is done only if the call returns.
abbrev pub resume : {S A B : Type 0} → Run S A → (A → Action S B) → Run S B
resume (returned a t) f = f a t
resume (panicked e t) f = panicked e t
resume (blocked t) f = blocked t

infixl 5 ◌>>=◌ ◌>>◌
abbrev pub ◌>>=◌ : {S A B : Type 0} → Action S A → (A → Action S B) → Action S B
◌>>=◌ m f s = resume (m s) f

abbrev pub ◌>>◌ : {S A B : Type 0} → Action S A → Action S B → Action S B
m >> k = m >>= λ _. k

-- The state that a call leaves behind.
abbrev pub final : {S A : Type 0} → Run S A → S
final (returned a s) = s
final (panicked e s) = s
final (blocked s) = s

-- The state that is reached by a call that returned.
abbrev pub result? : {S A : Type 0} → Run S A → Option A
result? (returned a s) = some a
result? (panicked e s) = none
result? (blocked s) = none

-- If a chain returned, its first part did.
pub resume-returned :
    {S A B : Type 0} (r : Run S A) (f : A → Action S B) (b : B) (t : S)
    → resume r f ≡ returned b t
    → (a : A) × (s : S) × (r ≡ returned a s) × (f a s ≡ returned b t)
resume-returned (returned a s) f b t h = (a, s, refl, h)
resume-returned (panicked e s) f b t h = cc
resume-returned (blocked s) f b t h = cc
