-- ===== src/Stream/Samples.antt =====
-- A response with reasoning, a text and a call, and one that breaks off.
use design.Common.{ℕ, ◌≡◌, refl, Bool, true, false, none, some, List, [], ◌∷◌, ◌==◌}
use design.Stream.Events.{Event}
use design.Stream.Contract.{nothing_open, text_content, thinking_content}
use design.Stream.Responses.{
  Adapter, Context, Fed, fed, Item, function_call, ResponseUsage, ResponseEvent, item_added,
  item_done, reasoning_delta, arguments_delta, finish, failure, respond,
}
use design.Stream.Responses as Upstream
use design.Stream.Orderly.{is_orderly, finishes}
use design.Stream.Meeting.{Meets, respond-assert_contract}
use design.Stream.Told.{Filled, given_text, given_thinking}
use design.Stream.Telling.{respond-text_content}
use design.Stream.Safety.{Safe, respond-Safe}

abbrev context : Context
context = record {
  max_tokens = 1;
  end_turn = 2;
  tool_use_reason = 3;
  decode = λ name. name;
  estimate = λ l. 7;
}

abbrev call : Item
call = record {
  type = function_call;
  id = 5;
  call_id = 6;
  name = 99 ∷ [];
  arguments = some (123 ∷ 125 ∷ []);
  encrypted_content = 0;
}

abbrev usage : ResponseUsage
usage = record { input_tokens = some 4; output_tokens = none; fields = [] }

abbrev response : List ResponseEvent
response =
    reasoning_delta (some (104 ∷ 109 ∷ []))
    ∷ Upstream.text_delta (some (97 ∷ []))
    ∷ item_added (some call)
    ∷ arguments_delta 5 (some (123 ∷ []))
    ∷ arguments_delta 5 (some (125 ∷ []))
    ∷ Upstream.text_delta (some (98 ∷ []))
    ∷ item_done (some call)
    ∷ finish false usage
    ∷ []

abbrev broken : List ResponseEvent
broken = item_added (some call) ∷ arguments_delta 5 (some (123 ∷ [])) ∷ failure 8 ∷ []

abbrev is_blank_character : ℕ → Bool
is_blank_character c = c == 32

response-is_orderly : is_orderly [] [] response ≡ true
unfolding is_orderly
response-is_orderly = refl

response-finishes : finishes response ≡ true
unfolding finishes
response-finishes = refl

broken-is_orderly : is_orderly [] [] broken ≡ true
unfolding is_orderly
broken-is_orderly = refl

response-given_text : given_text response ≡ 97 ∷ 98 ∷ []
unfolding given_text
response-given_text = refl

respond-assert_contract_example : Meets is_blank_character false (respond context 1 2 3 response)
respond-assert_contract_example =
    respond-assert_contract is_blank_character false context 1 2 3 response response-is_orderly
      response-finishes

respond-text_content_example :
    (b : Adapter) × (events : List Event) × (respond context 1 2 3 response ≡ fed b events)
    × Filled (given_text response) (given_thinking response) (text_content events)
    × (thinking_content events ≡ given_thinking response)
respond-text_content_example =
    respond-text_content context 1 2 3 response response-is_orderly response-finishes

respond-Safe_example : Safe is_blank_character false nothing_open (respond context 1 2 3 broken)
respond-Safe_example = respond-Safe is_blank_character false context 1 2 3 broken broken-is_orderly
