-- ===== src/Tests/Stream.antt =====
-- A stream from a provider that fails once, and its forwarding to a caller.
use x_beacon.Prelude.{
  ℕ, ◌≡◌, refl, true, Result, ok, err, Option, none, some, String, List, [], ◌∷◌, arith,
}
use x_beacon.Prelude.Int.{pos}
use x_beacon.Errors.{Err, bare, upstream, is_breaker_error, is_retryable}
use x_beacon.Router.World.{World}
use x_beacon.Router.Retry.{Ended, after_failure}
use x_beacon.Router.Chain.{chain_loop}
use x_beacon.Router.Chain.Routed.{Request}
use x_beacon.Router.Chain.Routed.Events.{IsBalanced, successes, success_of, SettledLast, InOrder}
use x_beacon.Router.Stream.{
  StreamEvent, chunk, failed, Gone, Committed, try_provider_stream, chat_completion_stream,
}
use x_beacon.Router.Stream.Tried.{chat_completion_stream-Ended, chat_completion_stream_commits_once}
use x_beacon.Tests.Worlds.{millionths}
use x_beacon.Tests.Router.{policy}

abbrev Feed : Type 0
Feed = List (Result Err (List (StreamEvent ℕ)))

abbrev open_stream : String → Feed → Result Err (List (StreamEvent ℕ)) × Feed
open_stream n [] = (ok [], [])
open_stream n (a ∷ rest) = (a, rest)

no_feed_refusal :
    (n : String) (w : Feed) {e : Err}
    → ◌≡◌ {A = Option Err} none (some e)
    → is_breaker_error e ≡ true
no_feed_refusal n w h = cc

abbrev streams : World String (List (StreamEvent ℕ)) millionths
streams = record {
  W = Feed;
  name = λ p. p;
  allow = λ n w. (none, w);
  done = λ n o w. w;
  call = open_stream;
  since = λ start w. (pos 0, w);
  now = λ w. (pos 0, w);
  random = λ w. (500_000, w);
  sleep = λ d w. (none, w);
  refusal = no_feed_refusal;
}

abbrev present : Feed → Option Gone × Feed
present w = (none, w)

-- a refused call, then a stream of two chunks that breaks off
abbrev feed : Feed
feed = err (bare upstream) ∷ ok (chunk 1 ∷ chunk 2 ∷ failed (bare upstream) ∷ []) ∷ []

abbrev serves : Committed ℕ
serves = record { provider = "a"; first = 1; rest = chunk 2 ∷ failed (bare upstream) ∷ [] }

chat_completion_stream_commits :
    (chat_completion_stream millionths streams present 2 policy "m" ("a" ∷ []) feed).out
    ≡ some (ok serves)
unfolding chat_completion_stream chain_loop try_provider_stream is_breaker_error is_retryable
    after_failure
chat_completion_stream_commits = refl

chat_completion_stream_example :
    Ended
      (Request true 1 "m" ("a" ∷ []))
      (chat_completion_stream millionths streams present 2 policy "m" ("a" ∷ []) feed)
chat_completion_stream_example =
    chat_completion_stream-Ended millionths streams present 2 policy "m" ("a" ∷ []) feed
      (omega arith)

chat_completion_stream_once_example :
    (r : Result Err (Committed ℕ)) × ((chat_completion_stream millionths streams present 2 policy
        "m"
        ("a" ∷ [])
        feed).out
      ≡ some r)
    × (successes
          (chat_completion_stream millionths streams present 2 policy "m" ("a" ∷ []) feed).trace
        ≡ success_of r)
    × SettledLast
        (chat_completion_stream millionths streams present 2 policy "m" ("a" ∷ []) feed).trace
    × IsBalanced
        (chat_completion_stream millionths streams present 2 policy "m" ("a" ∷ []) feed).trace
        true
    × InOrder
        ("a" ∷ [])
        (chat_completion_stream millionths streams present 2 policy "m" ("a" ∷ []) feed).trace
chat_completion_stream_once_example =
    chat_completion_stream_commits_once millionths streams present 2 policy "m" ("a" ∷ []) feed
      (omega arith)
