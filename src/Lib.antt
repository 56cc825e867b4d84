-- ===== src/Lib.antt =====
-- The Forgotten Server: the parts of the game server's own logic that do not hang on a database, a
-- script or the network card, as functions that can be evaluated, with the theorems about them.
--
-- The server. A client's connection is admitted or refused by its address (`Ban::acceptConnection`),
-- then a `Connection` reads packets into a `NetworkMessage` and writes the messages of its queue;
-- packets are encrypted with XTEA and may carry an Adler-32 checksum. The game keeps positions and
-- directions of what is on the map, a tree of the names of the players online, the parties that
-- players form and the channels that they talk in; handlers of `Game` find the objects that a request
-- names and call `Party` or `Chat`. All of the game runs on the dispatcher's thread, as tasks.
--
-- Modules, and the code that they are about:
--   * Common: names that all share; lists and indices over the native numbers, signed integers,
--     unsigned words with their wrap-around (u8 to u64, add32, sub32), association lists for maps.
--   * Network.Admission: src/ban.h, src/ban.cpp, `Ban::acceptConnection` with the clock as an
--     argument.
--   * Network.Connection: src/connection.h, src/connection.cpp, each handler (`parseHeader`,
--     `parsePacket`, `send`, `internalSend`, `onWriteOperation`, `close`, `handleTimeout`) as a
--     function on the state of a connection. What asio, the clock and the protocol answer are
--     arguments of the handlers. `begin` of Run is the start that `ServicePort::onAccept` of
--     src/server.cpp gives it, and `run` gives them in a list of events: a handler runs only if the
--     operation that it ends is under way.
--   * Network.Message: src/networkmessage.h, src/networkmessage.cpp, the reads and writes of a message
--     as state passing; the buffer is a function from offsets to bytes.
--   * Network.Protocol: src/protocol.cpp and src/outputmessage.h, the headers, the padding and the
--     encryption of a message, and what the receiver makes of it.
--   * Crypto.Xtea: src/xtea.h, src/xtea.cpp. Crypto.Checksum: `adlerChecksum` of src/tools.cpp.
--   * Geometry.Position: src/position.h. Geometry.Direction: src/position.h, src/position.cpp,
--     and `getDirection`, `getNextPosition`, `getDirectionTo` of src/tools.cpp.
--   * WildcardTree: src/wildcardtree.h, src/wildcardtree.cpp. A node's children are a list; the
--     pointers to children that the C++ code writes through are functions that rebuild the path.
--   * Party: src/party.h, src/party.cpp and the parts of src/player.h, src/player.cpp that a party
--     uses. Party.World: the party handlers of src/game.cpp over a store of parties; a deleted
--     party is an address without one, and reading it is `none`.
--   * Player.Experience, Player.Training: src/player.h, src/player.cpp, experience and levels, magic
--     levels and skills; what scripts make of an amount, and the vocation's tables, are arguments.
--   * Chat: src/chat.h, src/chat.cpp and the handlers of src/game.cpp for private channels. `run` of
--     Run takes the requests of players in a list; scripts that allow or refuse are arguments.
--   * Tasks: src/tasks.h, src/tasks.cpp, src/thread_holder_base.h. Steps has what the threads do, as a
--     relation on states; the history of the queue is part of the state.
--   * ItemAttributes: `ItemAttributes` of src/item.h, src/item.cpp.
--   * PathNodes: `AStarNodes` of src/map.h, src/map.cpp; a pointer to a node is its index.
--   * Trade: the trades of players, `playerRequestTrade` to `internalCloseTrade` of src/game.cpp,
--     with `playerAcceptTrade` in Accept. Players and items are numbers, `none` is a null pointer,
--     and reading through it is a fault; what the map, the inventories and the scripts answer to a
--     request is its `Env`, with whether a script is registered (src/events.cpp) and whether each of
--     the two moves succeeds; the result of the second is kept with the deal only. `serve_all` of
--     Deals takes the requests of players in a list.
--   * GameProtocol: src/protocolgame.cpp, `GetMapDescription` over any map of tiles, and in Known the set of
--     creatures that the client knows, with what `AddCreature` sends of one. A tile's own
--     description is one piece of the message.
--   * NodeFile: src/fileloader.h, src/fileloader.cpp, `Loader::parseTree` and `Loader::getProps`. An iterator
--     is what is left of the file; the stack of pointers holds the nodes that are not complete. Format is
--     the format itself.
--   * Streams: `PropStream` and `PropWriteStream` of src/fileloader.h. What is left of a stream is a list
--     of bytes, and a write is the bytes that it puts in front of what is written later.
--   * Conditions: src/condition.h, src/condition.cpp, how conditions are created, saved and loaded, with
--     the loops of src/iologindata.cpp. What a class adds is a constructor of `Extra`; `put` takes what
--     is written later, and `Outcome` is the result of a read, with a write behind an array as a fault.
--   * Money: `removeMoney` and `addMoney` of src/game.cpp; what they do to the items is a list of calls.
--   * Tools: src/tools.cpp, strings as lists of bytes (Text, Trim) and tables of codes (Codes).
-- A module's child modules hold its theorems; Examples and Talks hold tests.
--
-- Bounds and fuel. XTEA makes 32 passes over blocks of 8 bytes, of which there are (length + 7) / 8.
-- `explodeString` and `replaceString` have fuel for one turn more than the string has bytes: each
-- turn takes a separator of one byte at least away. `adlerChecksum` has fuel for as many blocks as
-- bytes, and each block has one byte at least. The loops of levels have fuel for as many turns as the
-- experience or the amount has points, or as there are levels below, and one more; each theorem about
-- them says that they end. The search for coins has fuel for one turn more than there are containers,
-- and coins are given out with fuel for as many turns as coins. The search for a free private channel
-- tries the 9900 ids. A condition is read with fuel for as many attributes, and a
-- player's conditions for as many, as the stream has bytes: each takes a byte at least. All else is
-- structural recursion. Integers wrap where the code's do, with two
-- exceptions, which are named where they stand: the times of attempts to
-- connect are below 2 ^ 63 milliseconds, and the level that shared experience asks for is a float in
-- the code, exact below 2 ^ 21.
--
-- Not modelled: database queries, files, Lua scripts, the sockets and timers themselves, RSA, the
-- rest of the game protocol's packets, the SHA1 digest and the tables of names of src/tools.cpp, item types, combat,
-- creatures and the map's contents. Lua events that parties raise are arguments, which answer yes or
-- no and change no party themselves. The locks of a connection make each of its handlers one step; a
-- `cancel` that throws in `closeSocket` is left out.
pub mod Common
pub mod Crypto
pub mod Geometry
pub mod Network
pub mod WildcardTree
pub mod Party
pub mod Money
pub mod Trade
pub mod GameProtocol
pub mod NodeFile
pub mod Streams
pub mod Conditions
pub mod PathNodes
pub mod ItemAttributes
pub mod Tasks
pub mod Tools
pub mod Player
pub mod Chat
