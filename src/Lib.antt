-- ===== src/Lib.antt =====
-- A verification library of the ESP32 firmware, esp32-firmware/main: the YKP protocol core.
--
-- A device speaks YKP: packets of a 33-byte header, a payload of TLV entries in CBOR and a 16-byte
-- tag. A packet that arrives is parsed, its id is put to the replay window, and its payload is
-- looked up by key; a packet that leaves takes its id from the session, its payload from the TLV
-- builder, and stays with the QoS engine until it is acknowledged. C code becomes functions that
-- take the state and hand back the new one. `Run` is a run of C that may fault: it leaves an array,
-- or frees what is not on the heap. Machine integers are natural numbers with their wrap-around
-- written out.
--
--   Base      tests, lists, bits and byte sequences: what the other files share.
--   Wire      the big-endian helpers of esp32-firmware/main/ykp_core/ykp_packet.c.
--   Replay    ykp_core/ykp_replay.c. Replay/History is the specification, the list of all ids
--             accepted; Replay/Window relates it to the bits, Replay/Refine proves the refinement.
--   Packet    ykp_core/ykp_packet.c, the packet: Packet/Write (ykp_packet_serialise), Packet/Read
--             (ykp_packet_parse, ykp_packet_validate_header); Packet/Layout, Packet/RoundTrip and
--             Packet/Ownership prove what they do. A payload is null, on the heap, or the static
--             receive buffer.
--   Cbor      ykp_core/ykp_cbor.h: Cbor/Encoding says which bytes each encoder writes.
--   Tlv       ykp_packet.c, the maps: builder (Tlv), finder (Tlv/Find), readers (Tlv/Read). The
--             finder runs on fuel; as many rounds as the map has bytes are enough for a map that
--             the builder made (Tlv/Built), and no number is enough for some others (Tlv/Endless).
--   Session   ykp_core/ykp_session.c; the clock is an argument.
--   Qos       ykp_core/ykp_qos.c; the calls of the send function and of the FreeRTOS timer are a list
--             of outputs, and the clock is an argument.
--   Half      the half-precision numbers of ykp_cbor.h and ykp_packet.c, as bit patterns. The loop of
--             the reader takes ten rounds at most, since a mantissa is not 0 there.
--   Security  ykp_core/ykp_security.c, with the PSA calls as parameters: ykp_security_encrypt and
--             ykp_security_decrypt, the context, its keys and signatures (Security/Keys), and the
--             memory pool of mbedTLS (Security/Pool).
--   Report    how every sender ends: a map becomes the payload of a packet, which is serialised into
--             a buffer on the stack, with and without room on the heap. Report/Found follows the
--             bytes to the lookup by key; Report/Room bounds them.
--   Io        the calls that services make of drivers and of their send function, as values.
--   Relay     services/relay_service.c; Relay/Acks is about a command's answer, Relay/Levels and
--             Relay/Pins about the pins over rows of commands and button presses.
--   Sensor, Health
--             services/sensor_service.c and services/health_service.c. Floats are bit patterns, and
--             their arithmetic is a parameter.
--   Ota       services/ota_service.c. The flash driver's answers are arguments. A lookup in a
--             payload has fuel, so that a run may have no end (Base/Looking). Ota/Announced follows
--             the hash of a start, Ota/Image the bytes in the partition.
--   Discovery discovery/ykp_discovery.c.
--   LegacyUdp transport/legacy_udp.c, the loop's round as a function of a datagram and the clock;
--             LegacyUdp/Once and LegacyUdp/Again run it over rows of datagrams.
--   Dispatch  main.c: the global state, the handshake and, in Dispatch/Incoming, the dispatcher;
--             Dispatch/Manager is the watch over the connection, Dispatch/Loop the loop of app_main,
--             and Dispatch/Start its start, which Dispatch/Provisioned follows from a commit. The
--             session's flag `active` is the security context's own, which the model copies back.
--   Provision config/ble_provision.c. The line buffer: Provision, Provision/Buffer, Provision/Moves,
--             Provision/Lines, Provision/Framed, Provision/OneLine and Provision/Messages; the
--             queue of four messages before it, with writes and rounds of the task in turns, is
--             Provision/Queue. The session (Provision/Session), the commands (Provision/Commands)
--             and all that happens (Provision/Events); Provision/Creds, Provision/Entered and
--             Provision/Committed are about what is stored. Provision/Lifecycle is the start and
--             the stop. The texts of notifications are values, cJSON is a parameter, and each task
--             runs in pieces, cut where it waits.
--   Udp       transport/ykp_udp.c, with the sockets' answers as arguments.
--   Nvs       config/nvs_config.c, over NVS as a parameter; Nvs/Stored says what NVS promises, and
--             Nvs/Memory is a store that keeps it.
--   Wifi      wifi/wifi_manager.c, with the driver's answers as arguments; Wifi/Scan is the list of
--             networks.
--   WebSocket transport/ykp_websocket.c: the certificates (WebSocket/Roots, WebSocket/Cert), what the
--             clean-up leaves (WebSocket/Cleaned, WebSocket/Trusted, WebSocket/Escaped), and the
--             client (WebSocket/Client). The loop of the handshake runs on the answers that it gets.
--
-- A receiver takes a packet off the wire by `parse`, which Dispatch calls first; Dispatch hands the
-- payload to the session, the keys, the replay window, the QoS engine, or one of the services, and
-- the services' packets leave through Report.
--
-- Not modelled: the socket's set-up in transport/legacy_udp.c; what the start of main.c creates (timer,
-- task, watchdog) and its time synchronisation; of BLE its advertising, its queue of notifications and
-- its watchdog, which is not started; the WiFi driver's initialisation; log lines and delays; the
-- other programs of the repository, and third-party code.
pub mod Base
pub mod Cbor
pub mod Discovery
pub mod Dispatch
pub mod Half
pub mod Health
pub mod Io
pub mod LegacyUdp
pub mod Nvs
pub mod Ota
pub mod Packet
pub mod Provision
pub mod Qos
pub mod Relay
pub mod Replay
pub mod Report
pub mod Security
pub mod Sensor
pub mod Session
pub mod Tlv
pub mod Udp
pub mod WebSocket
pub mod Wifi
pub mod Wire
