-- ===== src/Lib.antt =====
-- Verification library of gobac, a BACnet/IP stack in Go with a client and a simulator of devices.
--
-- A frame is a virtual link header, a network header and an application PDU, whose payload is a
-- sequence of tagged values. The client sends requests under invoke IDs that it reserves; the simulator
-- keeps devices of objects with properties in memory and answers requests on them, and notifies the
-- subscribers of an object that a write changed.
--
-- Files and the code that they model:
--   Prelude, Result              shared names, lemmas on lists, bits, integers and maps, Go's errors
--   Types/Bytes, Types/Tag       bacnet/types/tag.go: tag headers
--   Types/Unsigned, Types/Signed bacnet/types/unsigned.go, signed.go, signed_util.go, encoding_util.go
--   Types/ObjectId               bacnet/types/object_id.go
--   Types/Header                 bacnet/types/header.go
--   Types/Scalars                bacnet/types/bit_string.go, character_string.go, date.go, time.go,
--                                real.go, double.go
--   Types/GoValue, Types/PropertyValue
--                                bacnet/types/property_value.go, the Go values behind interface{}
--   Pdu/Reader, Pdu/Npci         bacnet/pdu/npci.go: the network header
--   Types/Context                writeContext, writeConstructedTag, decodeContext, isConstructedTag and
--                                their variants of simulator/services.go
--   Types/Repeat                 the shape that the loops of the decoders share
--   Types/Content, Types/Property
--                                bacnet/types/property.go: Property, propertyValueBounds
--   Pdu/Property                 bacnet/pdu/read_property.go and write_property.go
--   Pdu/ReadMultiple             bacnet/pdu/read_property_multiple.go
--   Pdu/WhoHas                   bacnet/pdu/who_has.go: WhoHas
--   Pdu/TimeSync                 bacnet/pdu/time_sync.go
--   Pdu/SubscribeCov             bacnet/pdu/cov_request.go: MarshalBinary
--   Client/Transaction           bacnet/transaction.go: genTxId, TryGetInvokeID, ReleaseInvokeID
--   Simulator/Errors             the errors of simulator/model.go and modelErrorClassCode
--   Simulator/Property           simulator/model.go: Property (Read, Write, validation, priorities)
--   Simulator/Object             simulator/model.go: Object and synthesizedProperty
--   Simulator/Device             simulator/model.go: Device (ReadProperty, ValidateWrite, WriteProperty,
--                                SetLocalTime)
--   Simulator/Network            simulator/model.go: Network (AddDevice, Device)
--   Simulator/WhoIs              simulator/services.go: decodeWhoIs; handleWhoIs of application.go
--   Simulator/SubscribeRequest   simulator/services.go: decodeSubscribeCOV
--   Simulator/Services           simulator/services.go: the codecs of the ReadProperty, WriteProperty,
--                                ReadPropertyMultiple and WritePropertyMultiple services, and
--                                encodeCOVNotification
--   Simulator/Response           bacnet/responder/response.go: the constructors of responses
--   Simulator/Changes            simulator/application.go: covChanged
--   Simulator/Application        simulator/application.go: NewApplication, handleReadProperty,
--                                handleReadPropertyMultiple, handleWriteProperty,
--                                handleSubscribeCOV, handleTimeSync, handleWhoIs,
--                                notifications and what they call; encodeIAm of services.go
--   Simulator/WriteMultiple      simulator/application.go: handleWritePropertyMultiple
--   Simulator/Subscriptions      simulator/subscriptions.go and clock.go
--   Examples                     runs on concrete inputs
--
-- Go functions keep their names in the spelling of this language. A byte slice is a list of numbers
-- below 256; a number of w bits is a natural number, and wrap-around is written out; a float is its bit
-- pattern, and the conversions between floats and integers are a record of functions (Types/GoValue)
-- with the one law that the codec relies on. A pointer to a value that nothing else shares is the value.
-- A Go map is an association list or a function. A lock makes an operation one step. A receiver that a
-- failing decoder leaves half filled is not modelled: the failure is then the whole result.
--
-- The handlers of an application (Simulator/Application) run one after the other on its state. A reading
-- of the clock takes the next value of a function from the number of readings to nanoseconds; that function,
-- the comparisons of floats and the text of an endpoint are parameters (Runtime).
--
-- The loop of TryGetInvokeID runs 255 rounds, as in the code, as many as there are IDs. The
-- loops of the decoders over octets take fuel, one unit for each octet left and one more: each round reads
-- a tag header of at least one octet. All other loops run over a list.
--
-- Not modelled: sockets, goroutines and timers of bacnet/server*.go and bacnet/transport; the dispatch of
-- bacnet/responder/server.go; the pools of buffers and tags; printing; the application PDU, the payloads of
-- bacnet/pdu for WritePropertyMultiple, I-Have and COV notifications; Who-Has and I-Have in
-- simulator/services.go and their handler; the loading of scenarios; the commands and the desktop
-- application.
pub mod Prelude
pub mod Result
pub mod Types
pub mod Pdu
pub mod Client
pub mod Simulator
pub mod Examples
