-- ===== src/Tests/Cache.antt =====
-- Two requests that differ in the choice count alone.
use x_beacon.Prelude.{◌≡◌, ◌↔◌, refl, false, none, some, [], ◌∷◌}
use x_beacon.Prelude.Int.{pos}
use x_beacon.Wire.{ChatRequest, plain_message}
use x_beacon.Cache.{Codec, key}
use x_beacon.Cache.Keys.{Agree, key_agrees}

abbrev one : ChatRequest
one = record {
  model = "mini";
  messages = plain_message "user" "hi" ∷ [];
  max_tokens = pos 0;
  temperature = none;
  top_p = none;
  n = pos 1;
  stream = false;
  stop = [];
  user = "";
  extra = [];
}

abbrev two : ChatRequest
two = record one { n = pos 2; extra = ("tools", "[]") ∷ [] }

-- a codec that writes the model alone, and a digest that is the text
abbrev codec : Codec
codec = record {
  marshal_payload = λ p. some p.model;
  sha256 = λ s. s;
  marshal = λ r. none;
  unmarshal = λ s. none;
}

key_agrees_example : key codec (some one) ≡ key codec (some two) ↔ Agree one two
key_agrees_example = key_agrees codec one two "mini" "mini" refl refl (λ h. h) (λ h. refl)
