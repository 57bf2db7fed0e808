-- ===== src/Effect/Runs.antt =====
-- A call whose first part is known to give a value, or an error, goes on as its second part does.
use card_payment_service.Prelude.{◌≡◌, refl}
use card_payment_service.Domain.{Error}
use card_payment_service.Effect.{ok, err, M, raise, catch, ◌>>=◌}

module _ {W A B : Type 0} (m : M W A) (w : W) where
  pub catch_ok :
      (h : Error → M W B) (f : A → M W B) {a : A} → (m w).0 ≡ ok a → catch m h f w ≡ f a (m w).1
  unfolding catch
  catch_ok h f e = rw e refl

  pub catch_err :
      (h : Error → M W B) (f : A → M W B) {e : Error}
      → (m w).0 ≡ err e
      → catch m h f w ≡ h e (m w).1
  unfolding catch
  catch_err h f e = rw e refl

  pub >>=_ok : (f : A → M W B) {a : A} → (m w).0 ≡ ok a → (m >>= f) w ≡ f a (m w).1
  unfolding ◌>>=◌
  >>=_ok f e = catch_ok raise f e
