-- ===== src/Lib.antt =====
-- KungFu Chess: chess in real time, in which both players move at once, and a server that plays it
-- with clients on a network.
--
-- A player's request goes from a click (src/input) or from a command to the server (src/network) to
-- the engine (src/engine), which asks the rules (src/rules) and starts a motion or a jump in the
-- arbiter (src/realtime). The clock lets motions, jumps and cooldowns end; pieces then arrive on the
-- board (src/model), capture, are captured, or are sent back. What happens is published on the message
-- bus (src/pubsub). The accounts (src/io/user_manager.cpp) are used by the server.
--
-- How the model stands to the code:
-- - A piece is an object that the board, the motions, the jumps and the cooldowns share. A pointer to
--   one is an address in a heap, and a pointer that may be null is an option of an address.
-- - An engine's state is a World (heap, board, game state, what has been published) with the arbiter.
--   Operations take the state and return the new one; coordinates are integers, times and scores
--   are natural numbers, and time passes by natural numbers of milliseconds. None of them is bounded:
--   that an int overflows is not modelled, except where a number
--   is read from a text or counts the messages of a client.
-- - The message bus is modelled on its own; elsewhere the published events are recorded in order.
-- - The clients of the server are objects that its list and its rooms share, and stand in a store of
--   their own. A handler is one step, though the code takes its locks piece by piece:
--   interleavings inside a handler are not modelled. The clock is an argument.
-- - An exception or a failing read is a value of a sum or an option.
--
-- Files:
-- - Base, with Base/Tests, Base/Lists, Base/Int, Base/Text: shared names, tests, integers, texts.
-- - Piece, Piece/Laws: src/model/position.cpp, src/model/piece.cpp and their headers.
-- - Board, Board/Cells, Board/Laws, Board/Moves: src/model/board.cpp.
-- - MessageBus, MessageBus/Laws: src/pubsub/message_bus.cpp.
-- - Motion: include/realtime/motion.h and the state in include/realtime/real_time_arbiter.h.
-- - GameState, GameState/Kings: src/model/game_state.cpp.
-- - Rules, Rules/Path, Rules/Shapes, Rules/Geometry: src/rules/piece_rules.cpp,
--   src/rules/rule_engine.cpp.
-- - Coherence: what holds between the grid and the piece objects.
-- - Due, Due/Timing, Due/Sorting: which events advance_time of src/realtime/real_time_arbiter.cpp finds.
-- - Arrival, Arrival/Keeping, Arrival/Outcomes, Arrival/Captures: one such event, case by case.
-- - Arbiter, Arbiter/Starting, Arbiter/Cooldowns, Arbiter/Handled, Arbiter/Flight, Arbiter/Invariant:
--   start_motion, start_jump, the loops of advance_time, and the rest of the class.
-- - Engine, Engine/Safety, Engine/Requests: src/engine/game_engine.cpp.
-- - BoardFactory, BoardFactory/Setup: src/model/board_factory.cpp.
-- - Users, Users/File, Users/Manager: src/io/user_manager.cpp, the data of the accounts, the text of
--   their file and its reading, and the login and the change of the ratings, which read and write the
--   file; the floating point formula of the ratings is a parameter, and ratings are not negative. With
--   Users/Login, Users/Ratings, Users/File/Values, Users/File/Account and Users/File/RoundTrip about
--   them. The order in which std::unordered_map lists its accounts is a field of the UserManager.
-- - Server: the state in include/network/socket_server.h; Server/Sessions (on_open, on_close, LOGIN),
--   Server/Lobby (FIND_MATCH, CANCEL_MATCH, CREATE_ROOM, JOIN_ROOM), Server/Play (MOVE, JUMP,
--   broadcast_room_state), Server/Matchmaking (process_matchmaking), Server/Loop (game_loop,
--   broadcast_state) of src/network/socket_server.cpp, with Server/Sessions/Leaving,
--   Server/Lobby/Rooms, Server/Loop/Once, Server/Loop/Forfeits, Server/Play/Numbers and
--   Server/Matchmaking/Pairs about them.
-- - Server/State: the text of a state (serialize_room_state, serialize_game_state); Server/Commands:
--   on_message, from the text of a message to the operation, with Server/Commands/Sent about what
--   clients send.
-- - Text, Text/Numbers, Text/Words, Text/Search, Text/Rounds: what the code uses of std::string,
--   std::stringstream and std::stoi, and lemmas about it.
-- - Json, Json/Keys, Json/Lookup, Json/Values: extract_string, extract_int and extract_bool of
--   src/network/socket_client.cpp, and the fields that the server writes.
-- - Client: the state in include/network/socket_client.h; Client/Reading (what is read in the text of
--   a state), Client/Merging and Client/Updating (parse_sounds, parse_pieces, parse_motions,
--   parse_jumps, parse_and_update_state), Client/Animations (advance_animations), Client/Messages
--   (on_message and what is sent) of src/network/socket_client.cpp, with Client/Animations/Ending,
--   Client/Merging/UnderWay, Client/Updating/Placing, Client/Spans, Client/Spans/Elements,
--   Client/RoomFields,
--   Client/ObjectFields, Client/FlightFields, Client/Arrays, Client/Arrays/Objects,
--   Client/Arrays/Sections and Client/FromServer about them.
-- - Gui, Gui/Requests: src/input/gui_controller.cpp, with Gui/Dialog, Gui/Requests/Waiting and
--   Gui/Requests/Sending about it.
-- - Input, Input/Clicks: src/input/board_mapper.cpp, src/input/controller.cpp.
-- - BoardText, BoardText/Tokens: src/io/board_printer.cpp, src/io/board_parser.cpp.
-- - Tests: the theorems at concrete states.
--
-- The loop of is_path_clear runs on as much fuel as the distance of the two ends and one more, which
-- is enough on rows, columns and diagonals, where the geometry lets it be called. std::sort leaves the
-- order of events at the same time open; the model keeps the order in which they are found.
--
-- The loops over the arrays of a state run on as much fuel as the text has characters; a round takes
-- at least one. A client reads texts that its server sends: for a duration or a score below zero, and
-- for a number that is no value of an enumeration, its model has no result. It has none either where
-- std::stoi throws, or where a number of a short message cannot be read; nor has the server for a
-- command whose numbers cannot be read, since the code then goes on with variables that were never
-- set. A message that carries a room stands for the text of its state at the time of sending.
--
-- Not modelled: drawing (src/view), the main program (main.cpp), sounds, the game history, the sessions
-- in Redis, files of logs, sockets and threads.
pub mod Base
pub mod Text
pub mod Piece
pub mod Board
pub mod MessageBus
pub mod Motion
pub mod GameState
pub mod Rules
pub mod Coherence
pub mod Due
pub mod Arrival
pub mod Arbiter
pub mod Engine
pub mod BoardFactory
pub mod Users
pub mod Server
pub mod Input
pub mod BoardText
pub mod Json
pub mod Client
pub mod Gui
pub mod Tests
