-- ===== src/Webhook.antt =====
-- tools/webhook-simulator: a program that posts signed events to a payment service. This file has
-- what is outside of it, as parameters, and the state that its calls read and write.
pub mod Events
pub mod Simulator
pub mod Routes
pub mod Start
use card_payment_service.Prelude.{ℕ, String, Option, List, ◌∷◌}
use card_payment_service.Domain.{ℤ, Time, Error}
use card_payment_service.Effect.{M, ok}
use card_payment_service.External.Table.{Reply}
use card_payment_service.World.{result_of}

-- a value in the JSON of a payload
pub data Field : Type 0 where
  text : String → Field
  number : ℤ → Field
  time : Time → Field

-- http.Request, as far as the program sets it
pub record HttpRequest : Type 0 where
  pub method : String
  pub url : String
  pub headers : List (String × String)
  pub body : List ℕ

pub record Tool : Type 1 where
  -- the clock, the random source and the network
  pub Outside : Type 0
  pub now : Outside → Time × Outside
  -- `"rf_" + uuid.NewString()` without the prefix
  pub new_string : Outside → String × Outside
  -- `json.Marshal`, from the fields to the bytes
  pub marshal : List (String × Field) → Reply (List ℕ)
  -- HMAC-SHA256 of a message under a secret
  pub hmac_sha256 : String → List ℕ → List ℕ
  -- the error of `http.NewRequest` for a URL, if there is one
  pub url_error : String → Option Error
  -- `http.Client.Do`: the status code of the answer
  pub do_request : HttpRequest → Outside → Reply ℕ × Outside

-- `posts` is the model's own: the requests handed to the client, newest first.
pub record Desk (t : Tool) : Type 0 where
  pub outside : t.Outside
  pub posts : List HttpRequest

module _ {t : Tool} where
  unfoldable pub take : {A : Type 0} → (t.Outside → A × t.Outside) → M (Desk t) A
  take f w = (ok (f w.outside).0, record w { outside = (f w.outside).1 })

  unfoldable pub post : HttpRequest → M (Desk t) ℕ
  post r w =
      let (answer, after) = t.do_request r w.outside in
      (result_of answer, record { outside = after; posts = r ∷ w.posts })
