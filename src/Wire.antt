-- ===== src/Wire.antt =====
-- internal/provider/types.go: the requests and the answers, as the parts of the gateway hand them on.
-- A JSON value that is only handed on is kept as its text.
use x_beacon.Prelude.{Bool, Option, String, List, []}
use x_beacon.Prelude.Int.{ℤ}
use x_beacon.Prelude.Maps.{GoMap}

abbrev pub RawMessage : Type 0
RawMessage = String

pub record Message : Type 0 where
  pub role : String
  pub content : String
  pub name : String
  pub tool_call_id : String
  pub extra : GoMap RawMessage

-- the floats stay JSON texts
pub record ChatRequest : Type 0 where
  pub model : String
  pub messages : List Message
  pub max_tokens : ℤ
  pub temperature : Option RawMessage
  pub top_p : Option RawMessage
  pub n : ℤ
  pub stream : Bool
  pub stop : List String
  pub user : String
  pub extra : GoMap RawMessage

pub record Choice : Type 0 where
  pub index : ℤ
  pub message : Message
  pub finish_reason : String
  pub extra : GoMap RawMessage

pub record Usage : Type 0 where
  pub prompt_tokens : ℤ
  pub completion_tokens : ℤ
  pub total_tokens : ℤ
  pub extra : GoMap RawMessage

pub record ChatResponse : Type 0 where
  pub id : String
  pub object : String
  pub created : ℤ
  pub model : String
  pub choices : List Choice
  pub usage : Option Usage
  pub provider : String

pub record MessageDelta : Type 0 where
  pub role : String
  pub content : String
  pub extra : GoMap RawMessage

pub record StreamChoice : Type 0 where
  pub index : ℤ
  pub delta : MessageDelta
  pub finish_reason : String

pub record ChatStreamChunk : Type 0 where
  pub id : String
  pub object : String
  pub created : ℤ
  pub model : String
  pub choices : List StreamChoice
  pub usage : Option Usage

-- a message of a role, without name and extra fields
abbrev pub plain_message : String → String → Message
plain_message role content = record {
  role = role;
  content = content;
  name = "";
  tool_call_id = "";
  extra = [];
}
