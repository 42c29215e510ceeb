-- ===== src/Serialization/Examples.antt =====
-- The conversions at inputs.
use hump.Prelude.{◌≡◌, arith, ok}
use hump.Json.Sample.{trees}
use hump.Model.Samples.{a_board}
use hump.Serialization.{cards_to_json, cards_from_json, serialize, deserialize}
use hump.Serialization.RoundTrip.{deserialize-serialize_cards}

deserialize-serialize_cards_example :
    deserialize trees (cards_from_json trees) (serialize trees (cards_to_json trees) a_board)
    ≡ ok a_board
deserialize-serialize_cards_example =
    deserialize-serialize_cards trees a_board
      (omega arith, (omega arith, (omega arith, (omega arith, (omega arith, tt)))))
