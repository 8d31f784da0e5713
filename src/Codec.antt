-- ===== src/Codec.antt =====
-- codec.go: how values are encoded. What is encoded is bytes; decoding stands for Unmarshal into a
-- destination that decodeInto of reflect.go makes.
-- go-redis encodes some values itself: `Native`.
use xredis.Prelude.{String}
use xredis.Exec.{Result}

pub record Codec (T : Type 0) : Type 0 where
  pub marshal : T → Result String
  pub unmarshal : String → Result T

-- What go-redis itself writes for a value and reads back.
pub record Native (T : Type 0) : Type 0 where
  pub write : T → String
  pub scan : String → Result T

-- JSONCodec, over json.Marshal and json.Unmarshal
unfoldable pub json_codec : {T : Type 0} → (T → Result String) → (String → Result T) → Codec T
json_codec marshal unmarshal = record { marshal = marshal; unmarshal = unmarshal }
