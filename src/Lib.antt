-- ===== src/Lib.antt =====
-- The Fermi v1 SDK: clients of an order queue, of trigger orders and of liquidity pools on Solana.
--
-- The SDK builds byte strings that users sign and instructions that carry them, sends them to a
-- relayer or to a trigger keeper, reads streams of events, and quotes pool shares. This library
-- models the parts that decide what is signed, sent, shown and paid.
--
-- Parts, the files that model them, and the code:
--   * Base: natural numbers, integers (bigint), texts as lists of UTF-16 units, decimal texts, results
--     that stand for exceptions. `Number` is a JavaScript number: an integer, or a value that no
--     integer equals.
--   * Flp.Math: src/flp/math.ts, and batchPayout of src/flp/v4.ts. One definition for each function;
--     an amount that has passed `u64` is a natural number, a net asset value is an integer.
--   * Flp.Vaults: src/flp/index.ts: the walk over deferred epochs in closeEpoch and
--     stagedParamsDelaySeconds; Flp.Vaults.Gates is vaultMode and the choice of a deposit or
--     withdrawal instruction, which is a name and an amount there. A program address made from an
--     epoch is that epoch. Flp.Instructions is FlpClient.instruction, with the interface description as
--     a parameter, and Flp.Instructions.Accounts a flat reading of such a description.
--   * Flp.V4: src/flp/v4.ts: the calls that its client hands to `instruction`, with their accounts by name;
--     Build makes the instructions of a user's calls by Flp.Instructions.
--     Users is what a pool's user asks for, Flows, Operate and Recovery the running of a pool, Admin and
--     Core the rest. Requests puts the user's functions under one type, and Outcome says when they answer.
--   * Wire: u8, u16ToLe, u32ToLe, u64ToLe, i64ToLe and toBigInt of src/intents.ts.
--   * Platform: what the SDK calls: public keys, SHA-256, signatures, as a record of operations with
--     their documented laws. Every module that hashes or signs takes it as a parameter, and
--     Platform.Sample is a concrete one that the tests run on.
--   * Intents: src/intents.ts. Payload encodes orders, Accounts hashes account lists, Messages builds
--     what is signed, Instructions and WithIntent the instructions that carry it.
--   * Triggers: src/triggerOrders.ts. Terms and their commitment, Legs (buildTriggerOrderLeg and
--     buildSlTpLegs), Request (signTriggerOrderLeg, triggerOrderRequest, withheld), Cancel and Listing.
--     A leg is built on Intents.Payload, Intents.Accounts and Intents.Messages.
--   * Context: buildCanonicalPerpRemainingAccounts of src/context.ts, the accounts that an order names.
--   * Deployments: src/deployments.ts, and how src/context.ts settles on a deployment, group and program.
--   * Trading: src/trading.ts and submitIntent of src/relayerClient.ts. It puts Context, Intents.Payload,
--     Intents.Messages and Intents.WithIntent together; Relay is the way through the relayer, Direct the
--     way straight into the queue, Asked what a payload must hold for what was asked.
--   * Quoter: src/quoter.ts, a state machine over the rounds of one run, in which any call may fail. What the
--     queue executes after the relayer has accepted an intent is not part of it.
--   * Views: src/triggerOrderViews.ts, over a JSON data type. Redact is what the client of Triggers
--     passes every answer through, Sanitize the strict validation.
--   * Streams: src/streams.ts. Parser is SseParser, Queue the state of sseSubscribe as a state machine
--     whose events come in any order, Urls is buildUrl.
--
-- Bounds and fuel. An i64 or u64 is checked where the code checks it, and its bytes are the number's
-- residues. `drain` of Streams.Parser has the length of the buffer as fuel: each round takes a line
-- break off it, and drain-enough shows that more fuel changes nothing. `commit` of Triggers.Legs
-- recurs on the list of random draws, and ends with an error when they are used up, where the code
-- would draw on. `deferred_batches` of Flp.Vaults has the batch limit as fuel, which is the loop's own
-- condition.
--
-- Not modelled: HTTP, gRPC and RPC calls, program addresses, the encoding of the Ed25519 instruction,
-- text decoding and JSON parsing (a parameter), the rest of the pool client, fee
-- credits, floating-point arithmetic (a parameter), command-line tools and generated interface descriptions.
pub mod Base
pub mod Context
pub mod Deployments
pub mod Flp
pub mod Wire
pub mod Platform
pub mod Intents
pub mod Triggers
pub mod Trading
pub mod Quoter
pub mod Views
pub mod Streams
