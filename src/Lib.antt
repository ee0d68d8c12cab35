-- ===== src/Lib.antt =====
-- A verification library for the Stiebel Eltron heat pump gateway (the package stiebel_heatpump).
--
-- The program reads and writes values of a heat pump over a serial line, and serves them over
-- HTTP. From the bottom up its parts are:
--   * the frames of the wire protocol (stiebel_heatpump/protocol/parser.py: calculate_checksum,
--     add_duplicated_bytes, fix_duplicated_bytes, is_frame_end, verify_header, header_check,
--     create_request_message): Protocol/Frame.antt. A bytes value is a list of numbers; a frame is
--     mostly written `framed h0 h1 middle`, the header bytes, the bytes up to the footer, and the
--     footer. Children: Escaping, Footer, Prefix, Checksum, Header.
--   * numbers and bits of the same file (_signed_byte, struct.unpack, short_to_bytes,
--     _get_bit_from_bytes, _set_bit): Protocol/Number.antt, with Number/Words and Number/Bits.
--   * channel definitions (stiebel_heatpump/models.py): Models.antt.
--   * decoding (parse_record, parse_records): Protocol/Decode.antt, with Decode/Slot for what is
--     read of a frame, Decode/Kind for the kind of the value, Decode/Records for one of several
--     records and Decode/Total for all of them.
--   * composing (scaled_to_raw, compose_record): Protocol/Encode.antt, with Encode/Shape for the
--     frame that comes out, and RoundTrip, Bools, Keeps, Wraps and Short. Protocol/Hex.antt has the
--     hexadecimal texts of the same file (bytes_to_hex, hex_to_bytes).
--   * the transport (stiebel_heatpump/protocol/transport.py): Protocol/Transport.antt has the
--     interface over an explicit state, and the relation `Delivers` of the bytes and timeouts that
--     a device gives. Protocol/Serial.antt is SerialTransport, the thread of its reader step by
--     step, with Serial/Order; the port of pyserial is a parameter.
--   * the connector (stiebel_heatpump/protocol/connector.py): Protocol/Connector.antt, with
--     Connector/Receive and Connector/Handshake, and Connector/Outcomes for any device. The loops
--     recur on the retries left and the room left in the buffer, 5 and 1024 as in the source, so they
--     need no fuel.
--   * the configuration (stiebel_heatpump/config_loader.py): Config.antt, with Config/Grouping and
--     Config/Lookup. Config/Load.antt has the readers of XML and YAML files, with Load/Rows and
--     Load/Readable.
--   * the communication service (stiebel_heatpump/protocol/communication.py): Items.antt has the
--     lists of values that a write goes through, Communication.antt reads with their three tries
--     and writes. Communication/Reading, /Writing, /Confirmed, /Outcomes, /Closed and /Failures have
--     the theorems. Communication/Clock.antt sets the clock (set_time and its two helpers), with
--     Clock/Order and Clock/Unconfirmed; the current time is an argument.
--   * the service (stiebel_heatpump/service.py): Service.antt has the coercion and the choice of
--     requests and results, Service/Operations.antt the operations on the connection, each a step
--     from state to state since a lock serialises them. Service/Answers and Service/Selection (with
--     Requests, Types and Answers) have the theorems. Service/Construction.antt builds the service
--     from the settings (from_settings).
--   * the settings (stiebel_heatpump/settings.py) and the file that stiebel_heatpump/main.py reads:
--     Settings.antt, with Settings/Precedence.
--   * the REST API (stiebel_heatpump/api.py): Api.antt has the routes, each with the status of its
--     answer, Api/Openapi.antt the schema of the values that the OpenAPI description publishes and
--     Api/Document.antt the document around it. Api/Lifespan.antt is the life span of the
--     application, from the attempt to connect over the requests to the end. Api/Refusals,
--     Api/Answers, Api/WriteAnswers, Api/Unhandled, Api/Listing, Api/WriteRead,
--     Openapi/Published, Document/Enum and Lifespan/Closed have the theorems.
--   * the simulator (stiebel_heatpump/simulator.py): Simulator.antt has the state and what it
--     answers, Simulator/Feed.antt the protocol byte by byte (feed, _feed_byte, _build_response),
--     Simulator/Seeding.antt and Seeding/Start.antt the frames that it starts with (_build_frame,
--     _encode, set_value, __init__), with Seeding/Laws and Seeding/TwoCommands, Simulator/Link.antt
--     SimulatorTransport. Link/Collect and Link/Talk put the connector on top of it, Simulator/Stack
--     the communication service, and Simulator/RoundTrip a write and a read through the whole stack;
--     Simulator/Matching, Simulator/Invariant (with Frames, Built, Behind, Start and Always) and
--     Simulator/Known are about the simulator alone.
-- Prelude.antt and its children hold Boolean tests, lists over native numbers, what is in a list, and
-- integers, Errors.antt the exceptions as values, Exec.antt methods that change a state and may raise,
-- with Exec/Raises for what they may raise, Dict.antt Python's dict. Tests.antt and its children run
-- the model at the byte vectors of tests/.
--
-- Python's floats are a parameter, the record `FloatOps` of Models.antt: a type with the operations
-- that the code uses, of which nothing is assumed. Positions and lengths of records are natural
-- numbers. Message texts, logging and the passing of time are not modelled.
--
-- Python's parsers of numbers from texts are the record `Conversions` of Models.antt. Upper and
-- lower case and whitespace are those of ASCII.
--
-- ElementTree, PyYAML, pydantic and pathlib are the record `Readers` of Config/Load.antt,
-- pydantic-settings is the record `Pydantic` of Settings.antt, and the OpenAPI document that FastAPI
-- generates is an argument.
--
-- Not modelled: the calls of stiebel_heatpump/api.py and stiebel_heatpump/main.py that set up FastAPI,
-- argparse and uvicorn, and _formatted in stiebel_heatpump/protocol/parser.py, which builds the text
-- of a message. Device definitions are data.
mod Prelude
pub mod Errors
pub mod Exec
pub mod Dict
pub mod Models
pub mod Protocol
pub mod Config
pub mod Items
pub mod Communication
pub mod Settings
pub mod Service
pub mod Api
pub mod Simulator
mod Tests
