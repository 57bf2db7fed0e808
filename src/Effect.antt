-- ===== src/Effect.antt =====
-- Go calls that change state, fail and panic. The state is a parameter, `W`.
pub mod Keeps
pub mod Triple
pub mod Runs
use card_payment_service.Prelude.{Option, none, some, Bool, true, false}
use card_payment_service.Domain.{Error}

pub data Panic : Type 0 where
  nil_dereference must_parse slice_bounds missing_value type_assertion : Panic

-- What a function that returns `(value, error)` comes back with: a value and no error, no value
-- and an error, both, or a panic.
pub data Result (A : Type 0) : Type 0 where
  ok : A → Result A
  err : Error → Result A
  both : A → Error → Result A
  panic : Panic → Result A

-- A call that ended otherwise than with a panic.
abbrev pub IsCalm : {A : Type 0} → Result A → Type 0
IsCalm (panic p) = ⊥
IsCalm _ = Unit

-- The state comes back after an error and after a panic too.
abbrev pub M : Type 0 → Type 0 → Type 0
M W A = W → Result A × W

abbrev pub resume : {W A B : Type 0} → Result A → (Error → M W B) → (A → M W B) → M W B
resume (ok a) h f w = f a w
resume (err e) h f w = h e w
resume (both a e) h f w = h e w
resume (panic p) h f w = (panic p, w)

module _ {W : Type 0} where
  unfoldable pub pure : {A : Type 0} → A → M W A
  pure a w = (ok a, w)

  -- `return nil, err`
  unfoldable pub raise : {A : Type 0} → Error → M W A
  raise e w = (err e, w)

  -- `return value, err`
  unfoldable pub return_both : {A : Type 0} → A → Error → M W A
  return_both a e w = (both a e, w)

  unfoldable pub panicking : {A : Type 0} → Panic → M W A
  panicking p w = (panic p, w)

  -- `a, err := m; if err != nil { h }; f`
  unfoldable pub catch : {A B : Type 0} → M W A → (Error → M W B) → (A → M W B) → M W B
  catch m h f w = resume (m w).0 h f (m w).1

  -- `*p`
  unfoldable pub deref : {A : Type 0} → Option A → M W A
  unfolding pure panicking
  deref none = panicking nil_dereference
  deref (some a) = pure a

  -- `defer cleanup()` before `m`: the cleanup runs however `m` ends, and its error is only logged.
  unfoldable pub deferred : {A : Type 0} → M W (Unit {0}) → M W A → M W A
  deferred cleanup m w = ((m w).0, (cleanup (m w).1).1)

  -- `if c { return nil, e }`
  unfoldable pub raise_if : Bool → Error → M W (Unit {0})
  unfolding pure raise
  raise_if true e = raise e
  raise_if false e = pure tt

infixl 5 ◌>>=◌ ◌>>◌
unfoldable pub ◌>>=◌ : {W A B : Type 0} → M W A → (A → M W B) → M W B
unfolding raise catch
m >>= f = catch m raise f

abbrev pub ◌>>◌ : {W A B : Type 0} → M W A → M W B → M W B
m >> k = m >>= λ _. k

-- Unfolds the calls above.
unfoldable pub effects : Unit {0}
unfolding ◌>>=◌ deref deferred raise_if return_both
effects = tt
