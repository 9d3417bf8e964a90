-- ===== src/Tests/Messages.antt =====
-- The endpoint of internal/server/messages.go on a small stream.
use x_beacon.Prelude.{refl, true, false, ok, none, some, [], ◌∷◌, str_eq, if◌then◌else◌}
use x_beacon.Prelude.Int.{pos}
use x_beacon.Messages.{NativeResponse, NativeProvider, NativeWorld, NativeRequest, no_usage}
use x_beacon.Messages.Laws.{HandsOn, messages_handler-HandsOn}

abbrev stream_answer : NativeResponse
stream_answer = record {
  status = 200;
  headers = λ h. if str_eq h "Content-Type" then "text/event-stream" else "";
  lines = "event: message_delta\n" ∷ "data: {usage}\n" ∷ "\n" ∷ [];
  read_fails = false;
}

abbrev claude : NativeProvider
claude = record { name = "anthropic"; forward = some (λ body beta. some stream_answer) }

abbrev world : NativeWorld
world = record {
  resolve = λ model. if str_eq model "claude" then some claude else none;
  peek = λ body. some ("claude", true);
  usage_event = λ payload. some (record {
    type = "message_delta";
    message_usage = no_usage;
    usage = record { input_tokens = pos 0; output_tokens = pos 9 };
  });
  envelope = λ body. no_usage;
  mentions_usage = λ payload. str_eq payload "{usage}\n";
  is_event_stream = λ s. str_eq s "text/event-stream";
  bill = true;
}

abbrev asked : NativeRequest
asked = record { body = ok "B"; beta = "b1"; req_id = "r1"; api_key_id = "k1"; writes = λ j. true }

messages_example : HandsOn world asked "B" stream_answer
messages_example =
    messages_handler-HandsOn world asked {body = "B"} {model = "claude"} {stream = true}
      {p = claude} {send = λ body beta. some stream_answer} {resp = stream_answer} refl refl refl
      refl refl refl refl (λ j. refl)
