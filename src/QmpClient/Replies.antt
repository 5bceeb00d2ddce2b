-- ===== src/QmpClient/Replies.antt =====
-- What `execute` makes of the messages that a command's reads hold.
use drtm_tests.Prelude.{
  ◌≡◌, refl, ◌∙◌, ap, none, some, List, [], ◌∷◌, Text, Bytes, split_lines, Result, ok, err, ◌>>=◌,
  or_raise, runtime_error, key_error, index_error, arith,
}
use drtm_tests.QmpClient.{
  Message, Response, receive, nonblank, load_all, respond, error_of, return_of, send, send_cmd,
  execute,
}

-- An error is raised, else the returned value is the answer. Two messages or more have neither.
abbrev pub answer : List Message → Result Text
answer [] = err index_error
answer (m ∷ []) = elim m.error [
  | some desc ↦ err runtime_error
  | none ↦ or_raise key_error m.returned
]
answer (m ∷ n ∷ _) = err key_error

sent :
    (loads : Text → Result Message) (chunks : List Bytes) (received : Bytes)
    (messages : List Message)
    → receive [] chunks ≡ ok received
    → load_all loads (nonblank (split_lines received)) ≡ ok messages
    → send loads chunks ≡ respond messages
unfolding send
sent loads chunks received messages r l = rw (r, l) refl

-- `execute` behind the command's `_send`
abbrev after : Result Response → Result Text
after r =
    (r >>= λ response. elim (error_of response) [
      | none ↦ ok response
      | some desc ↦ err runtime_error
    ])
    >>= return_of

executed :
    (loads : Text → Result Message) (greeting chunks : List Bytes) (negotiated : Response)
    → send loads greeting ≡ ok negotiated
    → execute loads greeting chunks ≡ after (send loads chunks)
unfolding execute send_cmd
executed loads greeting chunks negotiated g = rw (g) refl

after-respond : (messages : List Message) → after (respond messages) ≡ answer messages
after-respond [] = refl
after-respond (m ∷ []) = ground arith
after-respond (m ∷ n ∷ ms) = refl

-- Once the capabilities are negotiated and the reply is read and decoded, a reply of one message is
-- answered by its value, or raises its error, and a reply that came with another message, an event
-- in front of it or behind it, is a `KeyError` whatever the two messages hold.
pub execute-answer :
    (loads : Text → Result Message) (greeting chunks : List Bytes) (negotiated : Response)
    (received : Bytes) (messages : List Message)
    → send loads greeting ≡ ok negotiated
    → receive [] chunks ≡ ok received
    → load_all loads (nonblank (split_lines received)) ≡ ok messages
    → execute loads greeting chunks ≡ answer messages
execute-answer loads greeting chunks negotiated received messages g r l =
    executed loads greeting chunks negotiated g
    ∙ ap after (sent loads chunks received messages r l)
    ∙ after-respond messages
