-- ===== src/Chat/Request.antt =====
-- internal/server/chat.go, readChatRequest: the body of a request, or what is wrong with it.
use Prim.Native.String.{◌++◌ as append}
use x_beacon.Prelude.{ℕ, Result, ok, err, String, List, [], ◌∷◌, str_eq, if◌then◌else◌}
use x_beacon.Errors.Http.{MappedError, answer}
use x_beacon.Wire.{Message, ChatRequest}

-- how reading the body ends: http.MaxBytesReader and io.ReadAll
pub data Body : Type 0 where
  no_body over_limit unreadable : Body
  read_body : String → Body

abbrev pub invalid : ℕ → String → String → MappedError
invalid status code message = answer status "invalid_request_error" code message

-- the fields a request cannot go without
unfoldable pub require_fields : ChatRequest → List Message → Result MappedError ChatRequest
require_fields req messages =
    if str_eq req.model ""
    then err (invalid 400 "missing_model" "Field 'model' is required")
    else elim messages [
      | [] ↦
          err (invalid 400 "missing_messages" "Field 'messages' must contain at least one message")
      | _ ∷ _ ↦ ok req
    ]

decoded_request : Result String ChatRequest → Result MappedError ChatRequest
unfolding require_fields
decoded_request (err why) = err (invalid 400 "" (append "Malformed JSON: " why))
decoded_request (ok req) = require_fields req req.messages

-- `unmarshal` is encoding/json, with the text of its error
unfoldable pub read_chat_request :
    (String → Result String ChatRequest) → Body → Result MappedError ChatRequest
unfolding decoded_request
read_chat_request unmarshal no_body = err (invalid 400 "" "Empty request body")
read_chat_request unmarshal over_limit =
    err (invalid 413 "request_too_large" "Request body exceeds 1 MiB")
read_chat_request unmarshal unreadable = err (invalid 400 "" "Failed to read request body")
read_chat_request unmarshal (read_body raw) =
    if str_eq raw ""
    then err (invalid 400 "" "Empty request body")
    else decoded_request (unmarshal raw)
