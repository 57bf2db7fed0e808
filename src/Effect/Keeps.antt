-- ===== src/Effect/Keeps.antt =====
-- A rule for each way to put calls together: what a call does to the state, and to its value.
use card_payment_service.Prelude.{◌≡◌, refl, Option, none, some, Bool, true, false, if◌then◌else◌}
use card_payment_service.Domain.{Error}
use card_payment_service.Effect.{
  Panic, Result, ok, err, both, panic, M, resume, pure, raise, return_both, panicking, catch, deref,
  deferred, raise_if, ◌>>=◌,
}

-- What holds of the value of a call, where there is one.
abbrev pub Gives : {A : Type 0} → (A → Type 0) → Result A → Type 0
Gives Q (ok a) = Q a
Gives Q (err e) = Unit
Gives Q (both a e) = Q a
Gives Q (panic p) = Unit

abbrev pub Anything : {A : Type 0} → A → Type 0
Anything a = Unit

pub Gives-any_result : {A : Type 0} (r : Result A) → Gives Anything r
Gives-any_result (ok a) = tt
Gives-any_result (err e) = tt
Gives-any_result (both a e) = tt
Gives-any_result (panic p) = tt

pub record IsPreorder {W : Type 0} (R : W → W → Type 0) : Type 0 where
  pub same : (w : W) → R w w
  pub trans : (u v w : W) → R u v → R v w → R u w

-- `R` relates the states before and after every call of `m`, and `Q` holds of its value.
pub record Keeps {W A : Type 0} (R : W → W → Type 0) (Q : A → Type 0) (m : M W A) : Type 0 where
  pub at : (w : W) → R w (m w).1 × Gives Q (m w).0

module _ {W : Type 0} {R : W → W → Type 0} (o : IsPreorder R) where
  pub Keeps-pure : {A : Type 0} {Q : A → Type 0} (a : A) → Q a → Keeps R Q (pure a)
  unfolding pure
  Keeps-pure a q = record { at = λ w. (o.same w, q) }

  pub Keeps-raise : {A : Type 0} {Q : A → Type 0} (e : Error) → Keeps R Q (raise e)
  unfolding raise
  Keeps-raise e = record { at = λ w. (o.same w, tt) }

  pub Keeps-return_both :
      {A : Type 0} {Q : A → Type 0} (a : A) (e : Error) → Q a → Keeps R Q (return_both a e)
  unfolding return_both
  Keeps-return_both a e q = record { at = λ w. (o.same w, q) }

  pub Keeps-deref : {A : Type 0} (d : Option A) → Keeps R Anything (deref d)
  unfolding deref
  Keeps-deref none = record { at = λ w. (o.same w, tt) }
  Keeps-deref (some a) = record { at = λ w. (o.same w, tt) }

  pub Keeps-raise_if : (b : Bool) (e : Error) → Keeps R Anything (raise_if b e)
  unfolding raise_if
  Keeps-raise_if true e = record { at = λ w. (o.same w, tt) }
  Keeps-raise_if false e = record { at = λ w. (o.same w, tt) }

  Keeps-resume :
      {A B : Type 0} (P : A → Type 0) (Q : B → Type 0) (r : Result A) (h : Error → M W B)
      (f : A → M W B)
      → ((e : Error) → Keeps R Q (h e))
      → ((a : A) → P a → Keeps R Q (f a))
      → (u v : W) → R u v
      → Gives P r
      → R u (resume r h f v).1 × Gives Q (resume r h f v).0
  Keeps-resume P Q (ok a) h f kh kf u v uv p =
      (o.trans u v _ uv ((kf a p).at v).0, ((kf a p).at v).1)
  Keeps-resume P Q (err e) h f kh kf u v uv p = (o.trans u v _ uv ((kh e).at v).0, ((kh e).at v).1)
  Keeps-resume P Q (both a e) h f kh kf u v uv p =
      (o.trans u v _ uv ((kh e).at v).0, ((kh e).at v).1)
  Keeps-resume P Q (panic q) h f kh kf u v uv p = (uv, tt)

  pub Keeps-catch :
      {A B : Type 0} {P : A → Type 0} {Q : B → Type 0} {m : M W A} {h : Error → M W B}
      {f : A → M W B}
      → Keeps R P m
      → ((e : Error) → Keeps R Q (h e))
      → ((a : A) → P a → Keeps R Q (f a))
      → Keeps R Q (catch m h f)
  unfolding catch
  Keeps-catch {P = P} {Q = Q} {m = m} {h = h} {f = f} km kh kf = record {
    at = λ w. Keeps-resume P Q (m w).0 h f kh kf w (m w).1 (km.at w).0 (km.at w).1;
  }

  pub Keeps-bind :
      {A B : Type 0} {P : A → Type 0} {Q : B → Type 0} {m : M W A} {f : A → M W B}
      → Keeps R P m
      → ((a : A) → P a → Keeps R Q (f a))
      → Keeps R Q (m >>= f)
  unfolding ◌>>=◌
  Keeps-bind km kf = Keeps-catch km Keeps-raise kf

  pub Keeps-deferred :
      {A : Type 0} {Q : A → Type 0} {c : M W (Unit {0})} {m : M W A}
      → Keeps R Anything c
      → Keeps R Q m
      → Keeps R Q (deferred c m)
  unfolding deferred
  Keeps-deferred {c = c} {m = m} kc km = record {
    at = λ w. (o.trans w _ _ (km.at w).0 (kc.at (m w).1).0, (km.at w).1);
  }

-- The rules where nothing is said of the values.
module _ {W : Type 0} {R : W → W → Type 0} (o : IsPreorder R) where
  pub Keeps-pure_any : {A : Type 0} (a : A) → Keeps R Anything (pure a)
  Keeps-pure_any a = Keeps-pure o a tt

  pub Keeps-raise_any : {A : Type 0} (e : Error) → Keeps R (Anything {A = A}) (raise e)
  Keeps-raise_any e = Keeps-raise o e

  pub Keeps-return_both_any : {A : Type 0} (a : A) (e : Error) → Keeps R Anything (return_both a e)
  Keeps-return_both_any a e = Keeps-return_both o a e tt

  pub Keeps-bind_any :
      {A B : Type 0} {m : M W A} {f : A → M W B}
      → Keeps R Anything m
      → ((a : A) → Keeps R Anything (f a))
      → Keeps R Anything (m >>= f)
  Keeps-bind_any km kf = Keeps-bind o km (λ a _. kf a)

  pub Keeps-catch_any :
      {A B : Type 0} {m : M W A} {h : Error → M W B} {f : A → M W B}
      → Keeps R Anything m
      → ((e : Error) → Keeps R Anything (h e))
      → ((a : A) → Keeps R Anything (f a))
      → Keeps R Anything (catch m h f)
  Keeps-catch_any km kh kf = Keeps-catch o km kh (λ a _. kf a)

  pub Keeps-panicking_any : {A : Type 0} (p : Panic) → Keeps R (Anything {A = A}) (panicking p)
  unfolding panicking
  Keeps-panicking_any p = record { at = λ w. (o.same w, tt) }

Gives-weaken :
    {A : Type 0} {P Q : A → Type 0} → ((a : A) → P a → Q a) → (r : Result A) → Gives P r → Gives Q r
Gives-weaken f (ok a) p = f a p
Gives-weaken f (err e) p = tt
Gives-weaken f (both a e) p = f a p
Gives-weaken f (panic q) p = tt

pub Keeps-weaken :
    {W A : Type 0} {R : W → W → Type 0} {P Q : A → Type 0} {m : M W A}
    → ((a : A) → P a → Q a)
    → Keeps R P m
    → Keeps R Q m
Keeps-weaken {P = P} {Q = Q} {m = m} f k = record {
  at = λ w. ((k.at w).0, Gives-weaken {P = P} {Q = Q} f (m w).0 (k.at w).1);
}

pub Keeps-if :
    {W A : Type 0} {R : W → W → Type 0} {Q : A → Type 0} (b : Bool) {m n : M W A}
    → (b ≡ true → Keeps R Q m)
    → (b ≡ false → Keeps R Q n)
    → Keeps R Q (if b then m else n)
Keeps-if true km kn = km refl
Keeps-if false km kn = kn refl

pub ruleset any_rules = (
  Keeps-pure_any, Keeps-raise_any, Keeps-return_both_any, Keeps-bind_any, Keeps-catch_any,
  Keeps-panicking_any, Keeps-deref, Keeps-raise_if, Keeps-deferred,
)
