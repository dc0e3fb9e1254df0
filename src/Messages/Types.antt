-- ===== src/Messages/Types.antt =====
-- messages/mod.rs: the control packet types.
use squillion_mqtt.Prelude.{ℕ, Option, none, some, ◌==◌, if◌then◌else◌}

-- `MQTTMessageType`, numbered from 1.
pub data MqttMessageType : Type 0 where
  connect conn_ack publish pub_ack pub_rec pub_rel pub_comp : MqttMessageType
  subscribe sub_ack unsubscribe unsub_ack ping_req ping_resp disconnect : MqttMessageType

-- `TryFrom<i32>`: the arms of the match, in their order; `none` is `Err(())`.
unfoldable pub try_from : ℕ → Option MqttMessageType
try_from v =
    if v == 1
    then some connect
    else if v == 2
    then some conn_ack
    else if v == 3
    then some publish
    else if v == 4
    then some pub_ack
    else if v == 5
    then some pub_rec
    else if v == 6
    then some pub_rel
    else if v == 7
    then some pub_comp
    else if v == 8
    then some subscribe
    else if v == 9
    then some sub_ack
    else if v == 10
    then some unsubscribe
    else if v == 11
    then some unsub_ack
    else if v == 12
    then some ping_req
    else if v == 13
    then some ping_resp
    else if v == 14
    then some disconnect
    else none
