-- ===== src/Lib.antt =====
-- Verification of the core of the game server.
--
-- The server keeps a grid of blocks in chunks of 16 by 16, which block behaviours and players
-- change. A change is kept for the clients as a delta of its chunk, and goes to the other regions
-- in batches. Players, animals and NPCs are entities, which their behaviours and the clients'
-- messages move and change. The files, with the code that each models:
--
-- - Vec: internal/vec/vec2.go and vec3.go. Vec/Grid: the split of a block's coordinates.
--   Vec/Float: vec2_float.go, over the operations of float64 (the record FloatOps).
-- - Physics: internal/physics/collision.go. Physics/Collision: what the tests decide.
-- - Block: internal/world/block, the registry, the interface BlockAPI (the record BlockApi, over
--   any state of the world) and the types of its values. Block/Solid, Block/Fluid and Block/Grass:
--   the methods of internal/world/block/implementations, under the methods' names with the block's
--   in front (WaterBehavior.TickUpdate is water_tick_update). Block/Dispatch: the interface's
--   methods as functions of the behaviour, and the choice of the new block in handleBlockUpdate,
--   internal/network/game_handler_pb.go. Block/Interaction and Fluid/Still hold the proofs.
-- - Chunk: internal/world/chunk.go and layer.go. A write outside the array is a panic, the value
--   none. Chunk/Edits: a chunk's life as a sequence of calls; Chunk/Ticking, Chunk/Changes,
--   Chunk/Payload: the tick set, the change set, and what readers see.
-- - Sync: internal/sync, the batches, their overflow and their wire format. Sync/Batch,
--   Sync/Compressor, and Sync/Exchange for a batch from one end to the other.
-- - Regional: internal/regional, a node that applies the batches of the others. Regional/Conflicts,
--   Regional/Batches.
-- - Positions: internal/storage/position_repo.go and memory_position_repo.go. Positions/Contract,
--   Positions/Batch.
-- - Delta: internal/world/block_delta_manager.go, the changes on their way to the clients, which the
--   source only logs.
--   Delta/Calls: a manager's life as a sequence of calls; Delta/Versions, its child Delivery, and
--   Delta/Center.
-- - Users: internal/auth/user.go and user_repo_memory.go, the accounts. Users/Ids,
--   Users/Accounts, Users/Access. Users/Authenticator: internal/auth/game_authenticator.go.
-- - Events: internal/world/block.go, events.go and the entities of bigchunk.go. A channel is the
--   list of what waits in it.
-- - BigChunk: internal/world/bigchunk.go. BigChunk/Handle: the handlers of events; BigChunk/Npc:
--   the moves of NPCs. BigChunk/Write, Pending, Blocking, BuiltIn, Setting: the proofs.
-- - World: internal/world/world.go, the reads and writes of blocks. World/Route: events on their
--   way to BigChunks; World/Saves: saving. World/View and Writes: the world as a plain map of
--   cells (Chunk/Cells), Refine and Requests: the refinement; Total, Stale, Life, Ids, Handover.
--   World/Drive: the loop between a BigChunk and the world, with Echo for its proofs.
-- - Bus: internal/eventbus/eventbus.go. Bus/Delivery, and Bus/Runs for the steps in any order.
-- - Entity: internal/world/entity/entity.go, with what an entity's behaviour asks of the server
--   (the record EntityApi, over any state of the server). Entity/Player, Animal and Npc: player.go,
--   animal.go and npc.go; Entity/Attack: the attack of player.go; Entity/Behavior: the interface
--   EntityBehavior; Entity/Steering: the random draws and directions that they share;
--   Entity/Manager, with Movement: manager.go. Payload, Wounds, Identity and the children of the
--   other files (Whole, Keeps, Stall, Watch, Counted, Ids, Clash, Updates,
--   Bare) hold the proofs.
-- - Game: internal/network/game_handler_pb.go, the handler's state, its interface to entities and
--   its tick. Game/Actions, Items and Requests: what players do; Game/Moves: handleEntityMove;
--   Game/Sessions: handleAuth, OnClientDisconnect and the saving of positions. Game/Sight,
--   Ownership, Fights, Loot, Return, Pairing and Ticks: the proofs.
-- - Fsm: internal/entity/fsm.go, an older package of entities with a state machine. Fsm/Steps and
--   Arrival: the proofs.
-- - Prelude: shared names and lemmas; Prelude/Outcome: how a call ends. Examples: the theorems at
--   concrete inputs.
--
-- A component is a record of its state, and a method is a function from the state, its arguments
-- and the clock's value to the new state and what it returns or sends. A method is one step: most
-- hold their mutex from start to end. BatchManager.flush gives it up once it has taken the buffer,
-- and ValidateCredentials takes it again for the last login; calls in between are not modelled.
-- The same goes for the world manager, which takes a BigChunk's mutex more than once in a call.
-- In the BigChunk's handlers, a method that takes the mutex while a caller holds it never returns,
-- which is an outcome of the model. On the bus, a goroutine's look at
-- its subscriber's context, its call of the handler and its count are three steps. A Go map is
-- an association list, in any order. A Go `int` is a ℤ, and arithmetic on it wraps around at 64
-- bits where the code computes; a uint64 wraps around too. The proofs that need it ask for
-- numbers below 2^62 or fewer than 2^64 calls.
--
-- The decoding loop of Decompress runs on fuel, and has no result if that runs out. It is given one
-- round more than the payload has bytes, which is enough, since each round takes at least four.
--
-- An entity is a shared object: a method returns it as it leaves it, and the manager writes it back
-- under its identifier. While UpdateEntities runs, the manager's lock is held, and a call that takes
-- it again does not return. The handler's own mutex is taken and given up within its methods; two
-- messages at once are not modelled.
--
-- Libraries are parameters: gzip, CRC-32, JSON encoding and decoding, bcrypt, the signing of tokens,
-- lower case, strconv.FormatUint, the operations on float64 and its conversions; a float64 is any
-- type F. So are the world generator (floating-point noise) and the storage of entities. Random
-- draws are arguments. A write to a nil metadata map of a chunk is a panic too. Not modelled: the
-- network servers and channels, the messages that carry chunks, chat, the REST interface, databases
-- and caches, logging and metrics, generated protocol code, and so far the ticks of blocks inside a
-- BigChunk, the region manager, the spatial index, the handler's MoveEntity, most of
-- handleBlockUpdate, and the validation of tokens.
pub mod Prelude
pub mod Vec
pub mod Physics
pub mod Block
pub mod Chunk
pub mod Events
pub mod Entity
pub mod Fsm
pub mod Bus
pub mod BigChunk
pub mod World
pub mod Game
pub mod Sync
pub mod Regional
pub mod Positions
pub mod Delta
pub mod Users
pub mod Examples
