-- ===== src/Lib.antt =====
-- trade_station: a terminal that streams the order books and trades of four exchanges (MEXC, Gate,
-- BingX, LBank) and places orders on them. A handler thread for each exchange parses the frames of
-- a websocket, publishes order books on one ring buffer, and adds trades to a shared table. The
-- aggregator thread drains the ring into the display state; the render thread reads the display
-- and the trades, and applies the order events that the private streams have queued to the lists
-- of orders of its panels.
--
-- Common, Text and Floats hold the shared notation and lemmas, the string operations, and the
-- operations of `double` as a parameter (Floats): no law of floating point is built in, and a
-- theorem that needs prices to be ordered takes that as a hypothesis (Feed/Levels, IsOrder).
--
-- Disruptor: scr/disruptor.h at SIZE 1024. Disruptor.antt has each method run without
-- interruption; Disruptor/Threads has the machine of threads in which loads, tests, copies and
-- stores are steps of their own, under sequential consistency. Sequences are integers without
-- overflow, since 2^63 publications are out of reach. The waiting loop of `publish` is the result
-- `none` of one call of it, and a missing step of the machine.
--
-- Book: scr/orderbook.h (SharedDisplay::update is `put`) and the loop of scr/aggregator.h (a run
-- of `put`). A C string is its text up to the terminating zero, an array a function of the index.
--
-- Trades: scr/trades.h. Each method holds its lock throughout and so is one step.
--
-- Orders: trading/order.h. A std::future is invalid, running or ready.
--
-- Render: ui/render.cpp. Render/Lists is trim_history and cap_placed_orders (its loop takes a
-- round for each order as fuel, and each round removes one); Render/Events is the loop of a frame
-- over the drained order events, Render/Polls the polls of a panel's futures, Render/Market the
-- flags of an open arbitrage. Render/Form is the guards of draw_order_form and the press of its
-- button, with the marks of our own orders in the book; Render/Symbols is exchange_symbol and the
-- button "Apply All", over the four handlers; Render/Format is the formats of numbers;
-- Render/Cancels the buttons of the order lists and the poll of single cancellations, which is
-- `none` where the code erases rows under its own loop.
--
-- Feed: scr/exchange.h and what the handlers share. nlohmann::json is the parameter Json, whose
-- accessors give `none` for an exception, and a call of `on_message` gives the update that it
-- publishes, the trades afterwards and the messages sent. std::sort leaves the order of equal
-- prices open; Feed/Levels takes one such order.
--
-- Lbank, Bingx, Gate: lbank/lbank_handler.cpp, bingx/bingx_handler.cpp, gate/gate_handler.cpp. The
-- clock is an argument; so is BingX's decompress_gzip in on_message. Lbank/Connection,
-- Bingx/Connection, Gate/Connection and Mexc/Connection are the callbacks that open and keep a
-- connection, over Feed/Connection; Bingx/Connection also holds decompress_gzip, over the rounds
-- that zlib goes through.
--
-- Mexc: mexc/mexc_handler.cpp. The generated protobuf classes are the parameter Proto; a std::map
-- is the list of its entries in the order of its comparison.
--
-- Rest: trading/rest_client.h, with Boost's connection (Network) and OpenSSL's digests (Digests)
-- as parameters. A function that throws returns a Result with what(). Rest/Answers is what the
-- traders and the order streams do with an answer, over a Client of library operations.
--
-- Mexc/Trader, Bingx/Trader, Lbank/Trader, Gate/Rest: mexc/mexc_trader.cpp,
-- bingx/bingx_trader.cpp, lbank/lbank_trader.cpp and the REST helpers of gate/gate_trader.cpp.
-- Gate/Socket is GateWsImpl of the same file, with the queue of events that it pushes to, the map
-- of order ids and the messages sent as its state; its request counter is an int of 32 bits that
-- wraps around; every call that changes it is a step of Gate/Socket/Steps, in any order. `dump`
-- throws for a text that is not UTF-8, which Client has as `invalid`. Gate/Trader is the choice
-- between the two. A std::map from texts to texts is Text/Dictionary.
--
-- Mexc/Stream, Bingx/Stream: mexc/mexc_order_stream.cpp and bingx/bingx_order_stream.cpp, each
-- callback a step. The rounds of zlib's inflate are a list, which ends as zlib does.
--
-- Streams: main.cpp, the queue of order events that it shares between Gate's socket and the two
-- private streams. A step is a whole call of one of the three, or the drain by the render thread;
-- afterwards all three see the queue that the call has left.
--
-- TradeManager: trading/trade_manager.h, over the interface Trader, with the environment as an
-- argument. What is modelled of a call is the value that its future delivers. TradeManager/Traders
-- is the manager with the four traders above.
--
-- Not modelled: the start and the end of the threads in main.cpp; the counter of the loop that
-- renews a listen key; the order in which ui/render.cpp draws its rows; drawing, websocket and
-- REST connections, which are calls of libraries; the generated code in proto.
pub mod Common
pub mod Text
pub mod Floats
pub mod Disruptor
pub mod Book
pub mod Trades
pub mod Orders
pub mod Render
pub mod Feed
pub mod Rest
pub mod Mexc
pub mod Lbank
pub mod Bingx
pub mod Gate
pub mod TradeManager
pub mod Streams
