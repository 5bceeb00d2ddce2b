-- ===== src/QmpClient.antt =====
-- drtmtest/qmp_client.py: one command over QEMU's control socket. What the socket's reads return is a
-- list of chunks, an empty one at the end of the stream, and JSON's decoding is an argument.
pub mod Framing
pub mod Replies
pub mod Connection
mod Tests
use drtm_tests.Prelude.Dict.{Dict}
use drtm_tests.Prelude.{
  ℕ, Bool, true, false, not, ◌&&◌, ◌||◌, Option, none, some, List, [], ◌∷◌, ◌++◌, map, Text, Bytes,
  txt, text_eq, ◌is◌, ◌==◌, if◌then◌else◌, contains_text, split_lines, strip, Error, Result, ok,
  err, ◌>>=◌, or_raise, runtime_error, key_error, index_error, value_error, os_error,
}

-- What the client reads of a message: its `return`, and the description of its `error`, if it has
-- them.
pub record Message : Type 0 where
  pub returned : Option Text
  pub error : Option Text

-- What `_send` returns: the one message, or the dict of the first two.
pub data Response : Type 0 where
  single : Message → Response
  ack_and_event : Message → Message → Response

unfoldable pub ends_line : Bytes → Bool
ends_line [] = false
ends_line (c ∷ []) = c == 10
ends_line (c ∷ d ∷ s) = ends_line (d ∷ s)

-- Whether the loop of `_send` has read enough.
unfoldable pub is_complete : Bytes → Bool
unfolding ends_line
is_complete received =
    ends_line received
    && (contains_text received (txt "\"return\"") || contains_text received (txt "\"error\""))

-- The loop of `_send` over the socket's reads. Without another read, `recv` times out.
unfoldable pub receive : Bytes → List Bytes → Result Bytes
unfolding is_complete
receive received [] = if is_complete received then ok received else err os_error
receive received ([] ∷ chunks) = ok received
receive received ((c ∷ chunk) ∷ chunks) =
    let rest = receive (received ++ (c ∷ chunk)) chunks in
    if is_complete received then ok received else rest

unfoldable pub nonblank : List Text → List Text
nonblank [] = []
nonblank (line ∷ lines) =
    let rest = nonblank lines in elim (strip line) [ [] ↦ rest | c ∷ s ↦ line ∷ rest ]

abbrev pub load_all : (Text → Result Message) → List Text → Result (List Message)
load_all loads [] = ok []
load_all loads (line ∷ lines) = do
  message ← loads line
  messages ← load_all loads lines
  ok (message ∷ messages)

abbrev pub respond : List Message → Result Response
respond [] = err index_error
respond (m ∷ []) = ok (single m)
respond (m ∷ n ∷ _) = ok (ack_and_event m n)

-- `_send`, behind the sending
unfoldable pub send : (Text → Result Message) → List Bytes → Result Response
unfolding receive nonblank
send loads chunks = do
  received ← receive [] chunks
  messages ← load_all loads (nonblank (split_lines received))
  respond messages

-- `"error" in response`
abbrev pub error_of : Response → Option Text
error_of (single m) = m.error
error_of (ack_and_event m n) = none

-- `_send_cmd`: the reads behind `qmp_capabilities`, and those behind the command.
unfoldable pub send_cmd : (Text → Result Message) → List Bytes → List Bytes → Result Response
send_cmd loads greeting chunks = do
  _ ← send loads greeting
  response ← send loads chunks
  elim (error_of response) [ none ↦ ok response | some desc ↦ err runtime_error ]

-- `response["return"]`
abbrev pub return_of : Response → Result Text
return_of (single m) = or_raise key_error m.returned
return_of (ack_and_event m n) = err key_error

unfoldable pub execute : (Text → Result Message) → List Bytes → List Bytes → Result Text
unfolding send_cmd
execute loads greeting chunks = do response ← send_cmd loads greeting chunks; return_of response

-- What a command sends, with JSON's encoding of it: the second message goes out once the first one has been
-- answered.
unfoldable pub requests :
    (Text → Dict Text Text → Text) → Text → Dict Text Text → Result Response → List Text
requests dumps command args (err e) = dumps (txt "qmp_capabilities") [] ∷ []
requests dumps command args (ok ack) = dumps (txt "qmp_capabilities") [] ∷ dumps command args ∷ []

-- A command's messages and its answer
unfoldable pub call :
    (Text → Dict Text Text → Text)
    → (Text → Result Message)
    → Text
    → Dict Text Text
    → List Bytes
    → List Bytes
    → List Text × Result Response
unfolding requests send_cmd
call dumps loads command args greeting chunks =
    (requests dumps command args (send loads greeting), send_cmd loads greeting chunks)

module _ (dumps : Text → Dict Text Text → Text) (loads : Text → Result Message) where
  unfoldable pub human_monitor_command :
      Text → List Bytes → List Bytes → List Text × Result Response
  unfolding call
  human_monitor_command line =
      call dumps loads (txt "human-monitor-command") ((txt "command-line", line) ∷ [])

  unfoldable pub cont : List Bytes → List Bytes → List Text × Result Response
  unfolding call
  cont = call dumps loads (txt "cont") []

  unfoldable pub system_reset : List Bytes → List Bytes → List Text × Result Response
  unfolding call
  system_reset = call dumps loads (txt "system_reset") []

  unfoldable pub quit : List Bytes → List Bytes → List Text × Result Response
  unfolding call
  quit = call dumps loads (txt "quit") []
