-- ===== src/Lib.antt =====
-- The music player sws.
--
-- The program keeps a catalogue of music files in an SQLite database, plays playlists through
-- GStreamer, and is driven by a joystick, by clients over a web socket, and by the ends of the
-- tracks. Bluetooth devices are named by tables that began in BlueZ. This library models the parts
-- that decide something, as functions on explicit state, and leaves the libraries they call as
-- parameters.
--
-- Parts and files (paths from the root of the repository):
-- - Base: Boolean tests on numbers, lists, texts as lists of bytes, integers.
-- - Db: src/db.cpp and include/db.h. `Song` is db::song, `escape`, `to_query_string` and the
--   operations of Db/Statements give the texts that the functions of the same names push;
--   `add_to_playlist` of one path is `add_path_to_playlist`, and likewise for the other overloads.
--   Db/Select is select_where and select_like, with the database's answer a parameter. Db/Reads is
--   what the other queries make of their rows: select_track, select_playlist, the getters,
--   influences, artists and tables, and the constructor db(); a row is a list of columns. Db/Queue
--   is push and monitor: a step is what a thread does between two points where another can run.
-- - Track: src/track.cpp. `open_track` is the constructor from a path, `of_song` that from a song;
--   what files, TagLib, libmagic and the catalogue answer is a parameter.
-- - Playlist: src/playlist.cpp. `from_file` and `export_playlist` read and write a text; whether a
--   path exists and what the catalogue holds are parameters. `copied` is the copy constructor,
--   which leaves the source out.
-- - Joystick: src/joystick.cpp and include/joystick.h. `monitor` is the body of the loop, for an
--   event that was read; js_plug starts from what udev answers. Joystick/Udev is the rest of what
--   udev takes part in: process_udev, the loop of monitor_udev_thread, and get_hwids_by_path.
-- - Player: src/player.cpp. A std::list iterator is a `Cursor`: a position, or an element that was
--   erased. Undefined behaviour is `none`; so is what uses `current_track` once stop has destroyed
--   it. What the player does to other parts (statements, signals, the configuration) is a list of
--   effects. The assignment of a playlist is that of libstdc++.
-- - Control: the joystick's events and the pipeline's messages in src/player.cpp, and onMessage in
--   src/wsocket.cpp with what it sends back; Control/Drive is the joystick's thread, which calls
--   the player's handler for each event. Control/Navigation puts the events of all three one after
--   the other, and has a place on the rings of tables and tracks, with what is heard there, as what
--   they are to mean. Control/Program is main.cpp: the player is constructed, started, and driven.
--   Control/Listen is the loop in which the server waits for its port. Control/Session is one run
--   of the program after another, with what every input pushes to the database.
-- - Control/Handlers: the threads of player_handler in src/wsocket.cpp, which share a flag: a step
--   is one access of it, or one send.
-- - Player/Startup: the constructor of the player, populate, populate_from_db, exists and start.
--   What the directory iterator, the database and the configuration answer is a parameter.
--   Player/Sessions is what a run leaves in SQLite's table _playlist, which is a parameter with its
--   laws.
-- - Player/Watcher: file_watcher of src/player.cpp. The bytes that reads of inotify yield are a
--   parameter. Its scan of a buffer takes fuel: one more than the number of bytes is enough, since
--   the structure of an event has at least one byte.
-- - Player/Json and Player/Reports: json, position, duratin and position_json of src/player.cpp,
--   and the loop of main.cpp. A JSON text is the value it stands for. What GStreamer answers is a
--   parameter.
-- - Bluetooth: src/bluetooth.cpp, how the answer of D-Bus is read into devices (src/bt_device.cpp).
--   The answer is a parameter, of D-Bus's types.
-- - Db/Pieces: how a statement is read back: its literals, by SQL's rule for doubled quotes.
-- - DbQueue: src/db_queue.cpp. The queue of songs and that of durations are two copies of the
--   relation.
-- - Ptree: what the program uses of a boost property tree, as an interface with its laws for keys
--   without a dot; Ptree/Listed is the tree as a list of children.
-- - Config: src/config.cpp and include/config.h. Joystick/Storage: save_config and load_config of
--   src/joystick.cpp. Both take property trees, and Config the writer and reader of files, as
--   parameters.
-- - Utility: src/utility.cpp, utf8_leng.
-- - Md5: include/md5.h, whose digest of a file the catalogue keeps. Md5/Table is the table of
--   MD5Transform. The width of an unsigned long is a parameter, and the indices have 32 bits. The
--   loop over the blocks takes fuel: one more than the bytes of the input is enough, since a block
--   has 64.
-- - Util: src/util.c, which Makefile.am lists: tables of identifiers, their lookups, and helpers
--   for bitmaps and texts. The number readers of the C library that it calls are defined in
--   Util/CString after the C standard. `strdelimit` takes fuel, since its loop need not end; more
--   than the length of the text is enough where it does.
-- - Bluez: include/src/shared/queue.c and ringbuf.c, of the BlueZ sources kept beside the player,
--   which the player's build does not list. The entries of a queue are a list with their addresses;
--   its tail is an address. The counters of a ring wrap at 2^64. Bluez/Identifier is the part of
--   include/src/uuid-helper.c that makes texts.
-- - Tests: the theorems at concrete inputs.
--
-- The joystick's events reach the player by `joystick_event_handler`, those of the clients by
-- `on_message`; both call the player's operations, which play tracks (Track) of playlists
-- (Playlist) and push statements (Db) on the queue (Db/Queue); songs that a track finds changed go
-- through DbQueue. The player starts from the configuration (Config) and the database
-- (Player/Startup).
--
-- Simplifications. Text is a list of bytes. A duration is a whole number: of seconds, as the
-- program's integer division yields, or of nanoseconds where the pipeline's answer is pushed
-- undivided. The files answer the same through a sequence of events, and so does the memory in
-- which a track of a path is made: the members that its constructor leaves (favorite, rating,
-- duration) are one parameter for each path. Such a rating or duration is a number that the writer
-- of JSON accepts, and whether the memory of a duration is above 0, which the constructor tests, is
-- a parameter of its own. The member current of a playlist is never set, and nothing but
-- assignments reads it. The track that the constructor of the player destroys before anything was
-- assigned to it is taken to be usable, as with libstdc++. A rating is a number. The clock of the
-- joystick and the counters of the queue wrap at 2^32; the track's number and year wrap as the
-- source's types do. The address of a new entry is an argument.
--
-- Not modelled: threads other than in Db/Queue, DbQueue, Control/Handlers and Control/Drive; the
-- libraries themselves (GStreamer, D-Bus, udev, inotify, SQLite, TagLib, libmagic, the reader and
-- the writer of JSON); on_decoder_pad_added of the player, which only links pads; shuffle of a
-- playlist, which is random; src/bt_device.cpp, whose functions have no content, and
-- src/network.cpp, which only calls curl; and the rest of the BlueZ sources in include/src, a copy
-- of another project.
pub mod Base
pub mod Util
pub mod Db
pub mod Playlist
pub mod Joystick
pub mod Track
pub mod Player
pub mod Control
pub mod Bluez
pub mod Bluetooth
pub mod Ptree
pub mod Config
pub mod Utility
pub mod DbQueue
pub mod Md5
pub mod Tests
