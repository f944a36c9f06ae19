-- ===== src/Lib.antt =====
-- lora-mqtt: the gate between a LoRa network and an MQTT broker.
--
-- The program reads the lines of a LoRa modem from a serial port (the UART reader), turns each into a
-- change of the table of devices and into MQTT messages (the publisher, serve_reply in mqtt.c), takes
-- commands from the broker (my_message_callback in mqtt.c), queues them for the devices, and sends the
-- queued frames to the modem when a device is due (pending_worker in mqtt.c). Modules translate the
-- payloads of the devices (modules/umdk-*.c, through the registry in unwds-mqtt.c).
--
-- Which file models what:
--   Prelude   shared names, tests on numbers, lists, signed integers
--   Text      the C library: literals, snprintf (Format), sscanf and strtol (Scan, Radix), strtof (Float)
--   Bits      the bit operations of C on natural numbers
--   Numbers   utils.c: byte order, sign and magnitude, decimal fractions, crc16_arc
--   Hex       utils.c: hex_to_bytes, hex_to_bytesn, bytes_to_hex, the byte order of the host
--   Fifo      mqtt.c: m_enqueue, m_dequeue, m_peek, is_fifo_empty
--   Pending   mqtt.c: the table, pending_to_nodeid, init_pending, add_device, kick_device
--   Message   unwds-mqtt.c: add_value_pair, build_mqtt_message, mqtt_escape_quotes
--   Gate      the shared state of mqtt.c, effects, publish_mqtt_message of unwds-mqtt.c
--   Worker    mqtt.c: pending_worker, invite_mote
--   Modules   unwds-mqtt.c: convert_to, convert_from, unwds_modid_by_name over a list of modules;
--             Registry is the list itself, of modules/include/unwds-modules.h. The handlers of
--             modules/umdk-*.c: Meteo (with light), Counter, Simple, Analog (adc, mhz19), Pins (gpio,
--             pwm, switch), Serial (uart, irblaster, hd44780), Access (pacs, wiegand, idcard, st95),
--             Config, Pulse, Gps, Modbus, Dali, M200, M230, Iec61107, over Payload for replies and
--             Cursor for commands
--   Reply     mqtt.c: serve_reply, one function for each kind of reply
--   Settings  mqtt.c: the configuration file, in main
--   Reader    mqtt.c: uart_reader, send_static_devices_list
--   Callback  mqtt.c: my_message_callback, message_to_mote, message_broadcast, devices_list
--   System    the threads: sequences of turns of publisher, callback, UART reader and pending worker;
--             ClassA follows one frame through three of them
-- State is a record, a handler is a function from the state to the new state and the list of its
-- effects. A C string is the list of its bytes before the terminator, a buffer the list of all its
-- bytes. Undefined behaviour of C is a value: past_end for a walk or a write past an object, the
-- outcome undefined of a handler of a module, the effect fault in a handler of the gate. The clock,
-- the outcome of each malloc, uninitialised memory and the byte order of the host are arguments (Env,
-- Config), so the theorems hold for all of them.
--
-- Bounds: numbers are printed with fuel for 20 digits, which is enough for 64 bits. Counters of type
-- unsigned short wrap. A long has 64 bits and a char is signed. The loop over the numbers of an adc
-- command, over the dates of an m230 command and over the parameter of an iec61107 command has fuel
-- above the length of its text, of which each turn takes a character at least. Other loops follow the
-- list or the counter of the source.
--
-- Not modelled: logging, the set-up of the serial port and of libmosquitto, the locks (a handler is
-- one step, so a thread that acts between two parts of another's handler is not seen), the size of the
-- buffer for the text of a message, and the rounding of the doubles of the dimming curve of
-- umdk-dali.c, which are taken as exact numbers. The lengths of the pairs of a message are tested when
-- the handler returns (pairs_fit), the size of the buffer for a topic when it is written (overrun),
-- and that of the buffer for a command behind the id of its module (behind).
mod Prelude
pub mod Text
pub mod Bits
pub mod Numbers
pub mod Hex
pub mod Fifo
pub mod Pending
pub mod Message
pub mod Gate
pub mod Modules
pub mod Reply
pub mod Callback
pub mod Reader
pub mod Settings
pub mod System
pub mod Worker
