-- ===== src/Lib.antt =====
-- Simple IoT for Zephyr: points, their tables, their texts and the point cache.
--
-- A point is a small fixed-size record (type, key, data type, data, time) that the parts of the
-- firmware send to each other over a bus. `lib/point.c` sets and reads its fields, merges points into
-- tables and turns them into JSON and back; `lib/siot-string.c` prints and reads the numbers for it;
-- `lib/timeconv.c` prints and reads timestamps; `lib/point-cache.c` keeps a table of the current
-- points up to date from the bus and shows it on the console; `lib/html.c` reads the forms of the web
-- pages, and `lib/nvs.c` keeps points in flash. Of the applications, `apps/siot-net` serves the points over
-- HTTP from a table of its own, `apps/siot-nrf` publishes to a cloud over TLS, `apps/siggen` makes a wave,
-- and `apps/siot-simple` logs how often it was started.
--
-- Which file models what:
--   CString     the C string functions, and `copy_str_field` of lib/point.c
--   Point       include/point.h and the accessors of lib/point.c
--   Point/Merge `points_merge` of lib/point.c. Scan describes its loop, View the table as a map from
--               names to points, View/Latest many merges, View/Order their order, View/Table
--               the table up to the slots
--   SiotString  lib/siot-string.c, with `ftoa` and `atof` in SiotString/Float
--   Timeconv    lib/timeconv.c. Calendar is the Gregorian calendar that it is compared with, Days and
--               Bijection about days and dates, Accept about the texts that are read, Fraction about
--               their end, Printed about a timestamp as a word of a command
--   Json        `json_escape_string` and `json_unescape_string` of lib/point.c; Json/PointJs the
--               conversions of one point; Json/PointJs/Array the encoders and decoders
--   Cache       the cache of lib/point-cache.c; Cache/Quote is `quote_field`; Cache/Shell the `pt`
--               line, the `siot` commands, the thread (Cache/Shell/Latest: what it leaves,
--               Cache/Shell/Order: in which order points may come, Cache/Shell/Told: a line given back
--               as a command, Cache/Shell/Copy: a cache copied to another device), and the command `p`
--               (`handle_sendpoint`) of lib/point.c
--   Html        lib/html.c; Html/Form is a whole form
--   Nvs         lib/nvs.c and include/nvs.h; Nvs/Text is about texts in flash, Nvs/Thread about the points
--               that came over the bus, Nvs/Restore about one entry, Nvs/Sent about what is published,
--               Nvs/Reboot about a whole restart, Nvs/Refused about a flash that cannot be used, Nvs/Boot
--               about the count of the boots, with the listener of apps/siot-simple/src/main.c
--   Point/Dump  `point_dump` and `points_dump` of lib/point.c
--   Web         apps/siot-net/src/web.c: Chunks is about a payload in parts, Invariant about the
--               variables, Replies about what is replied, merged and published, Get about what a
--               client decodes, Mirror about the table beside the one of lib/point-cache.c
--   Cloud       apps/siot-nrf/src/cloud/cloud.c: Sockets is about what is held, Secure about TLS, Cert the
--               certificate; Cloud/Main is apps/siot-nrf/src/main.c and its runs
--   Zbus        lib/zbus.c: `bus_init`; Zbus/Ticker is the ticker thread
--   Startup     what `bus_init`, `nvs_init` and the cache do together when the system starts
--   NrfSimple   apps/siot-nrf-simple/src/main.c
--   Board       boards/esp32_poe/board_init.c
--   Metrics     lib/metrics.c: a round of the thread
--   Siggen      apps/siggen/src/main.c: `gen_triangle`
--   SdCard      apps/siot-net/src/main.c: `sd_card_init`
--   Tests       concrete points and parameters, and the results applied to them
-- A definition has the name of the C function or constant that it models. A loop of a function is a
-- definition of its own, named after it.
--
-- How the code is read:
--   * A `char` is a number below 256, and a buffer is the list of its bytes. Reading past the end of
--     a list gives the terminator. A function that fills a caller's buffer returns it.
--   * An `int` is an integer (Base/Int) that wraps at 32 bits. Memory is little-endian.
--   * `itoa` gets 32 rounds and `utoa64` 64, as many as their numbers have bits, and so enough in
--     every base from 2 up; the whole part of `ftoa` gets ten, as many as an `int` has digits.
--   * A call under a mutex is one step. A thread that reads the bus is a function of the
--     messages it got so far.
--   * The type `float` with its operations, Zephyr's JSON library, `timeutil_timegm64`, the flash
--     driver, the ZMS file system, and the texts that `snprintf` makes of %i and %f are not in the
--     repository: they are parameters. So is what an uninitialised buffer holds.
--   * The socket functions, the HTTP client and cJSON are a world that answers each call, whatever was
--     called before; a history lists the calls, the last first. The modem's key store, the kernel's
--     semaphore and timer, and the card are records of their operations, with what they document as
--     hypotheses.
--   * A buffer that the code may write outside of has a flag for it. A size_t that is made from a
--     negative int is larger than any text.
--   * The loop over a directory has fuel, one for each read; a directory of n entries needs n + 1.
--   * Memory that is asked for is taken to be there. `strtok_r` is its sequence of tokens.
--   * The shell that splits a line of the console into arguments is a parameter: Cache/Shell/Argv says what
--     is used of it. The strings that the JSON library gets and gives back are C strings; that it changes the
--     text that it parses in place is left out, since nothing reads that text afterwards.
--   * Log messages are left out. The fixed texts of the console are constructors.
--
-- Not modelled: the mains that only log a line (apps/siot-serial, apps/siot-can-node) or call drivers and
-- modelled functions in a fixed order (apps/siot-simple, apps/siggen, apps/siot-net), the static pages of
-- apps/siot-net with their front end, and the device trees of the boards.
pub mod Base
pub mod CString
pub mod Point
pub mod SiotString
pub mod Timeconv
pub mod Json
pub mod Html
pub mod Nvs
pub mod Cache
pub mod Web
pub mod Cloud
pub mod Zbus
pub mod Startup
pub mod NrfSimple
pub mod Board
pub mod Metrics
pub mod Siggen
pub mod SdCard
pub mod Tests
