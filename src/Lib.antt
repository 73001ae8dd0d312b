-- ===== src/Lib.antt =====
-- The verification library of agent-poker.
--
-- The program plays Texas hold'em between agents. `packages/poker-engine` is the core: it opens a
-- hand, applies one action at a time to a copy of the state, ends streets and hands, and returns the
-- events of each step. `apps/game-server` keeps a table for hand after hand and sends the events to
-- clients, which resume from a ring buffer; `apps/lobby-api` matches waiting agents;
-- `packages/hand-history` stores the events of a hand, links them by hashes and plays them again;
-- `packages/adapters-ledger` keeps the chips of the agents between tables.
--
-- Base                    the libraries' names passed on, Boolean tests, lists over the native
--                         numbers, results of calls that may throw, stable sorting, integers
-- Poker.Types             packages/poker-engine/src/types.ts
-- Poker.Deck              packages/poker-engine/src/deck.ts
-- Poker.Positions         packages/poker-engine/src/positions.ts
-- Poker.SidePots          packages/poker-engine/src/side-pots.ts
-- Poker.Evaluate          packages/poker-engine/src/evaluate.ts
-- Poker.Engine            packages/poker-engine/src/engine.ts: State has its helpers, Create
--                         `createInitialState`, Legal `getLegalActions` and `getLegalActionRanges`,
--                         Apply `applyAction`, Streets `advanceStreet` and
--                         `dealRemainingCommunity`, Finish `finishHand`
-- Server.RingBuffer       apps/game-server/src/event-ring-buffer.ts
-- History.HashChain       packages/hand-history/src/hash-chain.ts
-- Server.Table            apps/game-server/src/table-actor.ts: the seats; Hand has the hands
-- History.Replay          packages/hand-history/src/replay.ts
-- History.Store           packages/hand-history/src/memory-store.ts
-- Agents.Strategies       packages/agent-sdk/src: helpers.ts, strategies.ts and nl-strategies.ts
-- Server.Ws               apps/game-server/src/ws-handler.ts: Views has what a client sees, Hello
--                         `handleHello`, Play the actions and the renewal of tokens, Server the
--                         messages and the other events, `run` a server over events
-- Server.RateLimiter      apps/game-server/src/rate-limiter.ts
-- Server.SeatToken        apps/game-server/src/seat-token.ts
-- Lobby.Matchmaking       apps/lobby-api/src/matchmaking.ts
-- Accounts.Ledger         packages/adapters-ledger/src/memory-ledger.ts
-- Tests                   runs on concrete inputs
--
-- Functions have the source's names in snake case. A function that mutates the state takes it and
-- returns the new one with the events; `throw` is `err`, and a read through `undefined` is
-- `type_error`. `applyAction` works on a copy, so a call that throws changes nothing. A method of the
-- table that throws keeps what it wrote before, so it returns the table beside the result; the
-- callbacks of the table and of the queue are outputs in order, and a timer that fires is a call.
--
-- Ids are numbers, since they are only compared; chips are natural numbers, since the server admits
-- whole amounts only and every subtraction of the engine is of what is there; -1 for "no seat" is
-- `none`; sets of seats are lists; maps are association lists in insertion order. `highestBet -
-- currentBet` is cut off at 0, which it never passes. A draw of the generator is the numerator over
-- 2^32, so that the product with a deck's size is exact. Texts that describe hands or errors, dates
-- and the currency are left out.
--
-- The loop of `dealRemainingCommunity` runs on fuel: each round deals a card, so five rounds are
-- enough for a board of five. The search for a free seat runs on as many rounds as seats are taken:
-- one more number is then free. The other loops are structural.
--
-- The invariant of a hand, Poker.Engine.Invariant.IsPlaying, says that the pots hold what the players
-- put in, ids are distinct, all-in players have not folded, two players are in the hand and the
-- players at the seat of the turn can act. `createInitialState` gives the first turn by position,
-- also to a player whom a blind has put all-in.
--
-- A server's handlers run to their end, one after another; a table is loaded from memory only. The
-- listening socket, the lobby's routes, the Postgres adapters and the loading from a database, the
-- client of the agents' SDK, the collusion detectors, the older format of recorded hands and the user
-- interface are not modelled; SHA-256, the text of `JSON.stringify` and the arithmetic of the rate
-- limiter's doubles are parameters, and the server takes the limiter's answer with each message.
pub mod Base
pub mod Poker
pub mod Server
pub mod History
pub mod Lobby
pub mod Accounts
pub mod Agents
pub mod Tests
