-- ===== src/Messages/Fault.antt =====
-- How a routine on bytes may fail. `io` is an error that the code returns; the other two are not
-- values of the code: `panic` is an index or a slice out of bounds, and `out_of_fuel` a loop of the
-- model that was cut off.
use squillion_mqtt.Prelude.{String}
use squillion_mqtt.Result.{Result}

-- `std::io::Error`, by its kind and its text.
pub data IoError : Type 0 where
  invalid_data : String → IoError
  other : String → IoError

pub data Fault : Type 0 where
  io : IoError → Fault
  panic out_of_fuel : Fault

abbrev pub Checked : Type 0 → Type 0
Checked = Result Fault
