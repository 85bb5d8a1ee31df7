-- ===== src/Lib.antt =====
-- A verification library for the exchange and for the trading client.
--
-- The exchange takes orders from clients, matches them, and tells the clients and the market what
-- happened. The core of that is the order book of one symbol (exchange/matcher/book_core.h and
-- book_core.cc): two sides of price levels (exchange/matcher/price_levels.h and price_levels.cc) over
-- one pool of order nodes (common/mem_pool.h), an index from a client's order number to the resting
-- order, and two output queues of messages.
--
-- Types          common/types.h: the bounds, the side of an order, arithmetic of words.
-- Messages       client_request.h, client_response.h (exchange/order_manager) and market_update.h
--                (exchange/market_data): the messages, field by field.
-- MemPool        common/mem_pool.h: the pool with its intrusive free list (allocate, deallocate,
--                mark_slot for MarkSlot). MemPool/Inv has the invariant, MemPool/Ops and MemPool/Free
--                the operations, MemPool/Cycle the histories of calls.
-- Bitmap         exchange/matcher/price_levels.cc: MarkOccupied, ClearOccupied and FindBestTick.
-- PriceBand      exchange/matcher/price_levels.h: ToTick, ToPrice and IsValid.
-- PriceLevels    exchange/matcher/price_levels.cc: AddOrder, ApplyFill and RemoveOrder on the linked
--                queues. PriceLevels/Queue and PriceLevels/Inv have the linked list that stands for a
--                list of orders and the invariant of a side; Append and Add, Fill, and Unlink, Bridge,
--                Vacate and Remove follow the three operations.
-- BookCore       exchange/matcher/book_core.cc: the book. BookCore/Matching has Match,
--                BookCore/Requests has Add and Cancel. BookCore/Inv has the invariant of the book, Steps
--                and Changes are about a change of one level, Index is about the table of order numbers,
--                Lookup about finding an order in it,
--                Settle, Head and Level about the inner loop, Match about the outer one and the rule
--                of matching, Uncrossed about its end, and Cancel, Add and Start about the calls.
-- MatchingEngine exchange/matcher/matching_engine.cc: ProcessClientRequest, with the books of all symbols.
-- RingBuffer     common/ringBuffer.h: the queue between two threads. RingBuffer/System has the threads as
--                a step relation, Mask the masks of indices, Inv the invariant, Steps and Moves that
--                it is kept, with Slots for the elements in the store, Fifo what follows for every
--                interleaving, and Drain the consumer's progress.
-- Framing        the receive loop that the callbacks of order_manager.h, order_gateway.cpp and
--                market_data_consumer.cpp share; Stream is about how the bytes arrive, Frames about
--                the messages that they are cut into.
-- OrderServer    exchange/order_manager/order_manager.h and FIFOSequencer.h: recvCallback,
--                recvFinishedCallback and the sending loop of run. Numbers is about the counts of
--                sequence numbers, Due says which messages are due, Sockets is about the socket of a
--                client, Receive about the bytes of one socket, Batch about a turn, and Respond
--                about the responses.
-- MarketData     exchange/market_data/market_data_publisher.cc (publish for the loop of run), and in
--                MarketData/Snapshot snapshot_synthesizer.cc (AddtoSnapshot, PublishSnapshot). Stream
--                describes a snapshot as one list, Replay its reader, Table the synthesizer's table
--                after updates, and Accept the updates that it takes.
-- MarketDataConsumer
--                trading/market_data/market_data_consumer.cpp: recvCallback, queueMessage and
--                checkSnapshotSync. Recovery is about prefixes of the increments, Sync about the
--                consumer's invariant, and Complete about the end of a recovery.
-- ClientOrders   trading/strategy/order_manager.h with risk_manager.h and the responses in
--                trade_engine.cpp. Risk is about moveOrders, Fills about responses, Requests about what
--                is sent.
-- Strategies     trading/strategy/market_maker.h and liquidity_taker.h: what the algorithms quote; Limits is
--                about the limits of positions. Loop has the round of the trade engine
--                (trade_engine.cpp), which passes responses to the order manager, market updates to
--                the books, and their notices to the algorithm; Round is about limits after it.
-- MarketOrderBook
--                trading/strategy/market_order_book.h and market_order_book.cpp: the levels of a side
--                (addOrdersAtPrice, removeOrdersAtPrice), and in Updates the orders, updateBBO and
--                onMarketUpdate. Links, Leave, Within, Replace and Circle are about circular doubly
--                linked nodes; Levels, Join, Between, Order, Lead, Insert, Detach and Remove about the
--                levels of a side; Orders, Enter, Sides, Grow, Open, Unlink, Focus, Relead, Cleared,
--                Depart and Close about an order that comes or goes; Quote, Best and Behind about the best
--                bid and offer. Queues has the invariant of a side; Apply, Withdraw and Change are
--                about the three updates of an order.
-- Logger         common/logging.h: log, pushValue and flushQueue; Format is about format strings.
-- OrderGateway   trading/order_gw/order_gateway.cpp; Link is about both ends of the connection.
-- Base           the tests on numbers, maps and lists that the parts share.
-- Each Tests file has the theorems at concrete inputs.
--
-- A pointer to a pool object is the number of its slot, and a pointer to a level is its side and its
-- index; a null pointer and kInvalidTick are `none`. A method takes the state and returns it. A result
-- `none` is a run that ends in a failed ASSERT or in an access through a pointer to no object or out of
-- an array. Words keep their wrap-around; the int64_t arithmetic of prices is exact, so the model is the
-- code where it does not overflow.
--
-- The two loops of Match have a bound on their rounds, one more than the quantity of the taker when the
-- loop starts: each round takes at least one unit from it as long as every resting order has something
-- left.
--
-- The loops of the client's book over a circle (the search for the place of a level, the sum of the
-- quantities of a level, and the freeing of the levels of a side) have as their fuel one more than the
-- slots that the pool ever handed out: the objects of a circle have distinct slots below that number.
--
-- The receive loop has the number of bytes in the buffer as its fuel: a round takes a whole message, of
-- at least one byte. The queues between threads are bounded only in RingBuffer; the other parts read
-- and write them as lists, in the order that RingBuffer keeps. The decoding of a message from its
-- bytes, how an ofstream prints a number, and std::ranges::sort are parameters, the last one with what
-- the standard promises of it.
--
-- Not modelled: sockets, threads, clocks and measurements, the start-up code and the benchmarks, the
-- debug output of toString, the thread and the file of the logger, and Warmup of the pool, which writes
-- only to storage that holds no object. Of the trading client, the features, volume, and profit and
-- loss are left out.
pub mod Base
pub mod MemPool
pub mod Types
pub mod Bitmap
pub mod PriceLevels
pub mod Messages
pub mod BookCore
pub mod PriceBand
pub mod MatchingEngine
pub mod RingBuffer
pub mod Framing
pub mod Logger
pub mod MarketOrderBook
pub mod OrderServer
pub mod MarketData
pub mod MarketDataConsumer
pub mod ClientOrders
pub mod OrderGateway
pub mod Strategies
