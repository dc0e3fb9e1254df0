-- ===== src/Lib.antt =====
-- Verification of squillion-mqtt, an MQTT 3.1.1 broker.
--
-- A client connects to the server (src/server/mod.rs), which asks for its password to be checked
-- (src/auth), takes its session from the broker of its tenant (src/broker/mod.rs), and starts a worker
-- between the two (src/client). The bytes of a client pass through the codec (src/messages/codec.rs), which
-- cuts frames from the stream and parses each packet (src/messages/mod.rs) with a cursor
-- (src/messages/reader.rs), the variable-length integer (src/messages/length.rs) and the checks of
-- strings (src/messages/validation.rs). The packets of a client go to its session
-- (src/sessions/sessionworker.rs), which outlives the connection: it keeps the messages that await an
-- acknowledgement, stores them through a provider (src/sessions/persist.rs), and exchanges messages
-- with the router of its broker (src/broker/router.rs).
--
-- Files and code:
--   * Messages/Length.antt: read_size, read_size_check, encode_length of src/messages/length.rs.
--   * Messages/Reader.antt: Reader of src/messages/reader.rs. A parser is a function from a cursor to a
--     result and a cursor, with `?` as its bind. Messages/Utf8.antt stands for String::from_utf8 of the
--     standard library.
--   * Messages/Validation.antt: UTF8Iterator and the predicates of src/messages/validation.rs.
--   * Messages/Publish.antt, Connect.antt, Subscribe.antt, Ack.antt, Types.antt: the packets of
--     src/messages/mod.rs, a record for each struct, from_bytes and to_bytes.
--   * Messages/Codec.antt: MqttCodec of src/messages/codec.rs; decode returns the buffer that is left.
--   * Sessions/State.antt: MQTTSession and its messages. Sessions/Machine.antt: the monad of a session;
--     an error keeps what was changed before it, as with &mut self. The provider and the channels are
--     the record Outside, a parameter of every handler, and may fail at every call.
--   * Sessions/Queue.antt: qos_outgoing_*, qos_incoming_* and send_queued_messages.
--     Sessions/Lifecycle.antt: new_client_connected, clean_session, unsubscribe, unsubscribe_all.
--     Sessions/Publishing.antt: the handlers of PUBLISH and of the acknowledgements.
--     Sessions/Subscribing.antt: subscribe_message, subscribe, unsubscribe_message.
--     Sessions/Loading.antt: init_persist_session. Sessions/Worker.antt: run_loop, over the list of the
--     events that arrive.
--   * Broker/Topics.antt: the tree of topics and get_subscribed of src/broker/topics.rs.
--     Broker/Store.antt: the provider of the tree (src/broker/persist.rs, persisttest.rs), a parameter.
--     Broker/Subscriptions/Node.antt: Topic and the loops over its levels. Broker/Subscriptions.antt:
--     get_topic, subscribe, unsubscribe, retain, get_retained_messages and load_persistent_state; its
--     other children say what these change, on the tree as a function from paths to their payloads.
--     Broker/Sql.antt: PersistTopicSQL of src/broker/persistsql.rs, over SQLite as a parameter.
--   * Sessions/Sql.antt: PersistSessionSQL of src/sessions/persistsql.rs, over SQLite as a parameter.
--   * Sessions/Table.antt: the table of sessions of src/sessions/mod.rs.
--   * Broker/Router.antt: MessageRouter of src/broker/router.rs, over the tree and the table.
--   * Client/Worker.antt: MQTTClientWorker of src/client/clientworker.rs, over the list of the events that
--     arrive. Client/Worker/Relay.antt describes a connection by what each event relays.
--   * Auth/Users.antt: the password list and the password file of src/auth/pwd_list.rs and pwd_file.rs.
--     Auth/Service.antt: the providers and AuthService::process of src/auth/mod.rs.
--   * Broker/Requests.antt: MqttBroker of src/broker/mod.rs, with the router and the table it starts.
--   * Server/Connecting.antt: connect, connect_stream and get_broker of src/server/mod.rs, from the first
--     packet of a client through the authentication and the broker to the session.
--   * Action.antt: the monad of the broker, with a rule for what holds after each result.
--   * Prelude.antt, Result.antt: lists on native numbers, bit operations, results. Tests.antt: runs on
--     concrete inputs.
--
-- Numbers, fuel and panics: a byte is a number below 256, a topic a list of bytes. u16 and u8 values
-- are natural numbers with their wrap-around written out where the code computes with them
-- (next_message_id modulo 2 ^ 16, the generation modulo 2 ^ 64 as the bits of an i64); usize values stay
-- far below 2 ^ 64. An index out of bounds is a value of its own (panic, index_panic). The loop of
-- read_varint has fuel 4, since a fifth byte is an error; the loops of SUBSCRIBE and UNSUBSCRIBE have one
-- round more than bytes are left, and each round takes two bytes at least; the loops over characters have
-- one round more than there are bytes. A loop that is cut off gives out_of_fuel (none in Validation).
--
-- A HashSet is a list without an order that matters; the topics of unsubscribe_all are sent in the order
-- of the list. Sent in Sessions/Machine.antt is no state of the code: it records what the channels took.
--
-- A reference into the tree, `&mut Topic`, is the path of its node. unwrap_panic is the panic of unwrap.
-- The gauges of the tree are left out with the other metrics.
--
-- SQLite is a record with a function for each statement of the code, since it is not in the repository; a
-- theorem that needs more of it has what SQLite documents as a hypothesis.
--
-- Not modelled: the sockets, TLS, configuration, logging and metrics, which are input and output; the test
-- code.
pub mod Prelude
pub mod Result
pub mod Messages
pub mod Sessions
pub mod Action
pub mod Auth
pub mod Broker
pub mod Client
pub mod Server
pub mod Tests
