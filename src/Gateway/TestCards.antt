-- ===== src/Gateway/TestCards.antt =====
-- internal/gateway/test_cards.go.
use card_payment_service.Prelude.{String, Option, none, some, List, [], ◌∷◌, str_eq, if◌then◌else◌}

pub data CardScenario : Type 0 where
  success declined insufficient_funds expired : CardScenario

abbrev pub test_card_registry : List (String × CardScenario)
test_card_registry =
    ("4242424242424242", CardScenario.success)
    ∷ ("4000000000000002", CardScenario.declined)
    ∷ ("4000000000009995", CardScenario.insufficient_funds)
    ∷ ("4000000000000069", CardScenario.expired)
    ∷ []

unfoldable pub find_scenario : List (String × CardScenario) → String → Option CardScenario
find_scenario [] number = none
find_scenario ((n, s) ∷ rest) number = if str_eq n number then some s else find_scenario rest number

-- `GetTestCardScenario`
unfoldable pub get_test_card_scenario : String → Option CardScenario
unfolding find_scenario
get_test_card_scenario number = find_scenario test_card_registry number
