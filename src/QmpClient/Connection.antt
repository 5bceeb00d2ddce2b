-- ===== src/QmpClient/Connection.antt =====
-- One command's connection: `_open`, and the socket that `_send_cmd` closes whatever it reads.
use drtm_tests.Prelude.Dict.{Dict}
use drtm_tests.Prelude.{
  ◌≡◌, refl, Bool, true, false, List, [], Text, Bytes, Result, ok, err, os_error, ◌⊎◌, inl, inr,
}
use drtm_tests.QmpClient.{Message, Response, call}

-- How the opening goes: the connection is refused, no greeting comes in time, or one read returns some of it.
pub data Opening : Type 0 where
  refused silent : Opening
  greeted : Bytes → Opening

-- `_open`
unfoldable pub open_socket : Opening → Result (Unit {0})
open_socket refused = err os_error
open_socket silent = err os_error
open_socket (greeted greeting) = ok tt

-- What a command leaves: the messages that it sent, whether it closed its socket, and its answer.
pub record Exchange : Type 0 where
  pub sent : List Text
  pub is_closed : Bool
  pub answer : Result Response

abbrev closing : List Text × Result Response → Exchange
closing (sent, answer) = record { sent = sent; is_closed = true; answer = answer }

-- `_send_cmd` as a whole
unfoldable pub exchange :
    (Text → Dict Text Text → Text)
    → (Text → Result Message)
    → Text
    → Dict Text Text
    → Opening
    → List Bytes
    → List Bytes
    → Exchange
unfolding open_socket
exchange dumps loads command args opening greeting chunks = elim (open_socket opening) [
  | err e ↦ record { sent = []; is_closed = false; answer = err e }
  | ok _ ↦ closing (call dumps loads command args greeting chunks)
]

-- A socket that is left open was never used: a command that sent anything has closed it, and answers as
-- its reads say.
pub exchange_closes :
    (dumps : Text → Dict Text Text → Text) (loads : Text → Result Message) (command : Text)
    (args : Dict Text Text) (opening : Opening) (greeting chunks : List Bytes)
    → (exchange dumps loads command args opening greeting chunks
        ≡ record { sent = []; is_closed = false; answer = err os_error })
      ⊎ (exchange dumps loads command args opening greeting chunks
          ≡ closing (call dumps loads command args greeting chunks))
unfolding exchange open_socket
exchange_closes dumps loads command args refused greeting chunks = inl refl
exchange_closes dumps loads command args silent greeting chunks = inl refl
exchange_closes dumps loads command args (greeted g) greeting chunks = inr refl
