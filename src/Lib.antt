-- ===== src/Lib.antt =====
-- PixelBeetle: a shared canvas on which players claim a cell, confirm it and so paint it, with
-- TigerBeetle as the ledger of claims. The library models the parts that decide who may paint,
-- what the canvas holds and what the history view shows.
--
-- TbClient (internal/tbclient/tbclient.go) builds the transfers and reads the answers.
-- TbClient/External states what is taken from github.com/tigerbeetle/tigerbeetle-go: its
-- conversions are a parameter `TbLib` with their documented behaviour as `TbLaws`, its client a
-- parameter `TbServer S` over a state `S`, with no law, so that every answer is allowed.
-- TbClient/Ids has PixelID, UnpackPixelID and FundID, TbClient/Transfers has NewClaim,
-- IsPostedClaim and the Build functions, TbClient/Client has the calls and the mapping of statuses
-- to errors, TbClient/Batches has EnsureAllPixels.
--
-- Game (internal/game) is the service. Game/Registry has the tables locks, claims and byPlayer of
-- game.go and each critical section on them: `reserve` and `rollback` are the two of Claim,
-- `vacate`, `resolve` and `reap` those of the other methods. Game/Interleaving runs these sections
-- in any order, as a step relation. Game/Service has Claim and what it calls, Game/Resolution has
-- Confirm, Cancel, ReapExpired and ApplyEvent: a method is a function on a `World`, which holds
-- the service, the state of TigerBeetle, the sidecar and the broadcasts in their order
-- (internal/hub/hub.go); the clock and fresh UUIDs are arguments. Game/Views has Snapshot, SnapshotBmp
-- and InitAllPixels. Game/Anchors is anchors.go, the checkpoints of the history view. The proofs
-- about a module stand in its child modules.
--
-- Game/Fold is foldFrom of warm.go, the paging through the ledger, over a callback with a state,
-- and Game/Fold/Ledger states what TigerBeetle documents about its queries as `QueryLaws`.
-- Game/Warm is WarmCache, with a loaded snapshot, the scan and the reset of the sidecar as
-- parameters, and Game/History is FrameAt, with the base64 encoding and the read of the sidecar as
-- parameters. Game/Anchors/Covered and Game/Warm/Checkpoints follow the checkpoints from the replay to
-- the frames of Game/Warm/Seek.
--
-- Game/Snapshot and Game/Sidecar are persist.go, over byte strings (Prelude/Bytes). Game/Snapshot
-- has the format that SaveSnapshot writes and loadSnapshotFile reads, Game/Snapshot/Saving the file
-- work of SaveSnapshot as the list of its effects on the disk, where the outcomes of the system
-- calls, the removal of the temporary file included, are a parameter. Game/Sidecar has writeAnchorBlob, which is a hook of Game/Anchors,
-- readAnchorBlobLocked, scanAnchorSidecar and resetAnchorSidecar, and Game/Sidecar/Format the files
-- that they write as an inductive relation.
--
-- Bot (internal/bot) is the painter. Bot/Palette is palette.go, Bot/Blueprint is compose and
-- ValidateBounds of blueprint.go, Bot/Blueprint/TextArt its parser, with the runes of a string as
-- a parameter, Bot/Blueprint/Format its printer, and Bot/Paint is paint.go: the offset of a
-- drawing, and the pool of workers as a step relation in which every outcome of a claim is allowed. Bot/Shapes is shapes.go: the
-- rectangles, and in its children the line, the circle, the text with its font and the parser of a
-- -draw spec, with strings.ToUpper and the runes of a string as parameters. Bot/Image is the
-- scaling of image.go, on an image that is a function from its pixels to their channels, and
-- Bot/Preview is RenderPreview of preview.go. Bot/Load is LoadPaint of image.go, with os.ReadFile,
-- image.Decode and strings.ToLower as parameters, and Bot/Load/Queue the start of paintRun: the
-- offset, the order, the accounts of direct mode and the queue that Bot/Paint begins with, where the
-- exchanges of rand.Shuffle are a parameter. Bot/Transport is submitClaim and resolveClaim of
-- bot.go in both modes and the counters of an agent of the load generator, with net/http and JSON
-- as parameters; Bot/Transport/Served puts the handlers of Web behind them, with the cookie that
-- the client keeps, and a network that can lose a request or its reply.
--
-- Web is internal/web/server.go: the handlers of the claim endpoints and of the history frame over
-- the service of Game, with decodeJSON as a parameter by its result.
-- Web/Player is the signed player cookie of internal/web/render.go, with HMAC-SHA256 and the printer
-- and parser of UUIDs as parameters.
--
-- Hub is internal/hub/hub.go: the bounded channel of a subscriber and the batches of its goroutine,
-- for any order of broadcasts, receives and ticks; Hub/Delivery follows the paints to the client. Its events are those that Game/Service records.
--
-- Replay is internal/replay/replay.go: processBody over the ids seen on a connection, with the
-- parser as an argument, and the waits of Run. Its sink is any function on a state;
-- Game/Resolution has the one of the server, ApplyEvent. Replay/Parse is the parser of parse.go, with
-- encoding/json as a parameter that splits a body into tokens.
--
-- Canvas is internal/canvas/bitmap.go, the packed bitmap of the clients, with base64 as a
-- parameter.
--
-- Go's integers of 32 and 64 bits are natural numbers; the wrap of the FNV hash, of the color byte
-- and of the index of the packed bitmap is written out, and times are not negative. A UUID is the
-- number that its bytes spell. Maps are association lists. Two loops run on fuel: that of syncTo
-- and fillTo, whose fuel `ms / 60000 + 1` reaches past `ms` because every round adds 60000 to the
-- boundary, and the binary search of checkpoint, whose interval is at most as long as its fuel,
-- the length of the list. The byte cap of evict runs on the length of the list, and drops one
-- entry each round. The loop of foldFrom fetches a page each round: FrameAt gives it as many
-- rounds as pages are allowed, and WarmCache takes its number of rounds as an argument, which is
-- enough where it covers the transfers of the ledger with pages of 4000. The scan of the sidecar
-- has a round for each byte, and every record has 20 bytes at least. The loop of a line has a round
-- more than the sum of its two distances, and that of a circle two more than its radius. Lines are
-- modelled for distances below 2 ^ 61, and circles for a radius below 2 ^ 61 whose largest coordinates
-- are below the largest int, since Go's int wraps beyond: the model returns `out_of_range` there.
-- Rectangles and texts are over unbounded numbers; the wrap of `p.X + 1` in compose and of uint32 in
-- EnsureAllPixels is written out. The coordinates of drawings are not negative but for the points of
-- a circle, and those left of the canvas are dropped where a drawing is composed.
--
-- Not modelled: logging, goroutines and locks beyond the order of critical sections, the network,
-- the browser side, the routes and the pages of the HTTP layer, the pace and the latencies of the
-- load generator, the decoders of images, and the cancellation of a run
-- of the painter, which is a prefix of a run.
pub mod Prelude
pub mod TbClient
pub mod Bot
pub mod Game
pub mod Hub
pub mod Web
pub mod Replay
pub mod Canvas
