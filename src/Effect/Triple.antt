-- ===== src/Effect/Triple.antt =====
-- Triples: from a state where `P` holds, a call that gives a value leaves `Q`, one that gives a
-- value and an error leaves `B`, one that gives an error leaves `E`, and one that panics leaves `X`.
use card_payment_service.Prelude.{
  ◌≡◌, refl, Option, none, some, Bool, true, false, if◌then◌else◌, arith,
}
use card_payment_service.Domain.{Error}
use card_payment_service.Effect.{
  Result, ok, err, both, panic, M, resume, pure, raise, return_both, catch, deref, raise_if, ◌>>=◌,
  effects,
}

abbrev pub Ends :
    {W A : Type 0}
    → (A → W → Type 0)
    → (A → W → Type 0)
    → (W → Type 0)
    → (W → Type 0)
    → Result A
    → W
    → Type 0
Ends Q B E X (ok a) w = Q a w
Ends Q B E X (err e) w = E w
Ends Q B E X (both a e) w = B a w
Ends Q B E X (panic p) w = X w

pub record Triple {W A : Type 0} (P : W → Type 0) (m : M W A) (Q B : A → W → Type 0)
    (E X : W → Type 0) : Type 0 where
  pub at : (w : W) → P w → Ends Q B E X (m w).0 (m w).1

module _ {W : Type 0} {E X : W → Type 0} where
  pub Triple-pure :
      {A : Type 0} {P : W → Type 0} {Q B : A → W → Type 0} (a : A)
      → ((w : W) → P w → Q a w)
      → Triple P (pure a) Q B E X
  unfolding pure
  Triple-pure a f = record { at = f }

  pub Triple-raise :
      {A : Type 0} {P : W → Type 0} {Q B : A → W → Type 0} (e : Error)
      → ((w : W) → P w → E w)
      → Triple P (raise e) Q B E X
  unfolding raise
  Triple-raise e f = record { at = f }

  pub Triple-return_both :
      {A : Type 0} {P : W → Type 0} {Q B : A → W → Type 0} (a : A) (e : Error)
      → ((w : W) → P w → B a w)
      → Triple P (return_both a e) Q B E X
  unfolding return_both
  Triple-return_both a e f = record { at = f }

  pub Triple-deref :
      {A : Type 0} {P : W → Type 0} {B : A → W → Type 0} (d : Option A)
      → (d ≡ none → (w : W) → P w → X w)
      → Triple P (deref d) (λ a w. P w × (d ≡ some a)) B E X
  unfolding deref
  Triple-deref none f = record { at = f refl }
  Triple-deref (some a) f = record { at = λ w p. (p, refl) }

  -- `*p` where p is known not to be nil
  pub Triple-deref_some :
      {A C : Type 0} {P : W → Type 0} {Q B : C → W → Type 0} (f : A → M W C) (d : Option A) (a : A)
      → d ≡ some a
      → Triple P (f a) Q B E X
      → Triple P (deref d >>= f) Q B E X
  unfolding effects
  Triple-deref_some f none a e t = cc
  Triple-deref_some f (some a') a e t =
      let same : a' ≡ a = ground arith in rw same (record { at = t.at })

  pub Triple-raise_if :
      {P : W → Type 0} {B : Unit {0} → W → Type 0} (b : Bool) (e : Error)
      → (b ≡ true → (w : W) → P w → E w)
      → Triple P (raise_if b e) (λ _ w. P w × (b ≡ false)) B E X
  unfolding raise_if
  Triple-raise_if true e f = record { at = f refl }
  Triple-raise_if false e f = record { at = λ w p. (p, refl) }

  Ends-resume :
      {A C : Type 0} (R : A → W → Type 0) (E' : W → Type 0) (Q B : C → W → Type 0) (r : Result A)
      (h : Error → M W C) (f : A → M W C) (w : W)
      → ((e : Error) → Triple E' (h e) Q B E X)
      → ((a : A) → Triple (R a) (f a) Q B E X)
      → Ends R (λ _. E') E' X r w
      → Ends Q B E X (resume r h f w).0 (resume r h f w).1
  Ends-resume R E' Q B (ok a) h f w th tf p = (tf a).at w p
  Ends-resume R E' Q B (err e) h f w th tf p = (th e).at w p
  Ends-resume R E' Q B (both a e) h f w th tf p = (th e).at w p
  Ends-resume R E' Q B (panic q) h f w th tf p = p

  pub Triple-catch :
      {A C : Type 0} {P : W → Type 0} {R : A → W → Type 0} {E' : W → Type 0} {Q B : C → W → Type 0}
      {m : M W A} {h : Error → M W C} {f : A → M W C}
      → Triple P m R (λ _. E') E' X
      → ((e : Error) → Triple E' (h e) Q B E X)
      → ((a : A) → Triple (R a) (f a) Q B E X)
      → Triple P (catch m h f) Q B E X
  unfolding catch
  Triple-catch {R = R} {E' = E'} {Q = Q} {B = B} {m = m} {h = h} {f = f} tm th tf = record {
    at = λ w p. Ends-resume R E' Q B (m w).0 h f (m w).1 th tf (tm.at w p);
  }

  pub Triple-bind :
      {A C : Type 0} {P : W → Type 0} {R : A → W → Type 0} {Q B : C → W → Type 0} {m : M W A}
      {f : A → M W C}
      → Triple P m R (λ _. E) E X
      → ((a : A) → Triple (R a) (f a) Q B E X)
      → Triple P (m >>= f) Q B E X
  unfolding ◌>>=◌
  Triple-bind tm tf = Triple-catch tm (λ e. Triple-raise e (λ w p. p)) tf

  pub Triple-if :
      {A : Type 0} {P : W → Type 0} {Q B : A → W → Type 0} (b : Bool) {m n : M W A}
      → (b ≡ true → Triple P m Q B E X)
      → (b ≡ false → Triple P n Q B E X)
      → Triple P (if b then m else n) Q B E X
  Triple-if true tm tn = tm refl
  Triple-if false tm tn = tn refl

  -- What holds before may be weakened.
  pub Triple-before :
      {A : Type 0} {P P' : W → Type 0} {Q B : A → W → Type 0} {m : M W A}
      → ((w : W) → P w → P' w)
      → Triple P' m Q B E X
      → Triple P m Q B E X
  Triple-before f t = record { at = λ w p. t.at w (f w p) }

  -- What holds before may be used to choose the proof.
  pub Triple-assume :
      {A : Type 0} {P : W → Type 0} {Q B : A → W → Type 0} {m : M W A}
      → ((w : W) → P w → Triple P m Q B E X)
      → Triple P m Q B E X
  Triple-assume f = record { at = λ w p. (f w p).at w p }

-- Each way to end, weakened.
pub Ends-after :
    {W A : Type 0} (Q Q' B B' : A → W → Type 0) (E E' X X' : W → Type 0) (r : Result A) (w : W)
    → ((a : A) → Q a w → Q' a w)
    → ((a : A) → B a w → B' a w)
    → (E w → E' w)
    → (X w → X' w)
    → Ends Q B E X r w
    → Ends Q' B' E' X' r w
Ends-after Q Q' B B' E E' X X' (ok a) w q b e x h = q a h
Ends-after Q Q' B B' E E' X X' (err f) w q b e x h = e h
Ends-after Q Q' B B' E E' X X' (both a f) w q b e x h = b a h
Ends-after Q Q' B B' E E' X X' (panic p) w q b e x h = x h

pub Triple-after :
    {W A : Type 0} {P : W → Type 0} {Q Q' B B' : A → W → Type 0} {E E' X X' : W → Type 0}
    {m : M W A}
    → Triple P m Q B E X
    → ((a : A) (w : W) → Q a w → Q' a w)
    → ((a : A) (w : W) → B a w → B' a w)
    → ((w : W) → E w → E' w)
    → ((w : W) → X w → X' w)
    → Triple P m Q' B' E' X'
Triple-after {Q = Q} {Q' = Q'} {B = B} {B' = B'} {E = E} {E' = E'} {X = X} {X' = X'} {m = m} t q b e
      x =
    record {
      at = λ w p.
          Ends-after Q Q' B B' E E' X X' (m w).0 (m w).1 (λ a. q a (m w).1) (λ a. b a (m w).1)
            (e (m w).1) (x (m w).1) (t.at w p);
    }
