-- ===== src/Adapters/Sse.antt =====
-- What the stream readers of openai/stream.go and anthropic/stream.go share: the lines of a body,
-- as bufio.Scanner gives them, and the delivery of events; and the frames of server/sse/writer.go.
pub mod Laws
use Prim.Native.String.{◌++◌ as append}
use x_beacon.Prelude.{
  ℕ, ◌≡◌, Bool, true, false, ◌||◌, not, Option, none, some, String, List, [], ◌∷◌, ◌++◌, str_eq,
  if◌then◌else◌,
}
use x_beacon.Prelude.Runes.{take_runes, drop_runes}
use x_beacon.Errors.{Err, upstream_error, new_upstream_error, upstream}
use x_beacon.Wire.{ChatStreamChunk}
use x_beacon.Router.Stream.{StreamEvent, chunk, failed}

-- strings.TrimPrefix(s, " ")
unfoldable pub trim_space : String → String
trim_space s = if str_eq (take_runes 1 s) " " then drop_runes 1 s else s

-- the payload of a line: none for a blank line, a comment or another field
unfoldable pub payload_of : String → Option String
unfolding trim_space
payload_of line =
    if str_eq line "" || str_eq (take_runes 1 line) ":"
    then none
    else if not (str_eq (take_runes 5 line) "data:")
    then none
    else some (trim_space (drop_runes 5 line))

-- how the body and the caller behave: whether the i-th event is taken before the context ends,
-- whether the context has ended once the lines are read, and the scanner's error
pub record Conn : Type 0 where
  pub takes : ℕ → Bool
  pub gone : Bool
  pub scan_error : Option String

-- sendEvent, and then what is sent after it
unfoldable pub send_event :
    Conn
    → ℕ
    → StreamEvent ChatStreamChunk
    → List (StreamEvent ChatStreamChunk)
    → List (StreamEvent ChatStreamChunk)
send_event c i ev rest = if c.takes i then ev ∷ rest else []

abbrev pub upstream_failure : String → String → StreamEvent ChatStreamChunk
upstream_failure name message = failed (upstream_error (new_upstream_error name upstream 0 message))

unfoldable pub scan_failure : String → String → Option String → StreamEvent ChatStreamChunk
scan_failure name truncated none = upstream_failure name truncated
scan_failure name truncated (some why) = upstream_failure name (append "stream read: " why)

-- the end of the lines without a terminal one
unfoldable pub end_of_lines : Conn → String → String → ℕ → List (StreamEvent ChatStreamChunk)
unfolding send_event scan_failure
end_of_lines c name truncated i =
    if c.gone then [] else send_event c i (scan_failure name truncated c.scan_error) []

-- Writer.WriteData and Writer.WriteComment: the lines of a frame
unfoldable pub data_lines : String → List String
data_lines payload = append "data: " payload ∷ "" ∷ []

unfoldable pub comment_lines : String → List String
comment_lines text = append ": " text ∷ "" ∷ []
