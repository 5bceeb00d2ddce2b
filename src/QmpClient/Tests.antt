-- ===== src/QmpClient/Tests.antt =====
-- Replies with and without an event, and the theorems at them.
use drtm_tests.Prelude.{
  ◌≡◌, refl, ◌++◌, none, some, List, [], ◌∷◌, Text, Bytes, txt, text_eq, ◌is◌, if◌then◌else◌,
  split_lines, starts_with, strip, contains_text, Result, ok, err, key_error, value_error,
}
use drtm_tests.QmpClient.{Message, single, receive, is_complete, nonblank, send, execute}
use drtm_tests.QmpClient.Framing.{receive-concat}
use drtm_tests.QmpClient.Replies.{execute-answer}

abbrev reply : Text
reply = txt "{\"return\": 1}"

abbrev event : Text
event = txt "{\"event\": 2}"

abbrev loads : Text → Result Message
loads line =
    if line is reply
    then ok (record { returned = some (txt "1"); error = none })
    else if line is event
    then ok (record { returned = none; error = none })
    else err value_error

abbrev returned : Message
returned = record { returned = some (txt "1"); error = none }

abbrev pieces : List Bytes
pieces = txt "{\"return\"" ∷ txt ": 1}" ∷ (10 ∷ []) ∷ []

receive-concat_example : receive [] pieces ≡ ok (reply ++ (10 ∷ []))
unfolding is_complete contains_text starts_with txt
receive-concat_example = receive-concat pieces reply tt refl refl refl

abbrev with_event : Bytes
with_event = event ++ (10 ∷ (reply ++ (10 ∷ [])))

execute-answer_example : execute loads pieces (with_event ∷ []) ≡ err key_error
unfolding send receive nonblank split_lines strip is_complete contains_text starts_with txt text_eq
execute-answer_example =
    execute-answer loads pieces (with_event ∷ []) (single returned) with_event
      (record { returned = none; error = none } ∷ returned ∷ []) refl refl refl
