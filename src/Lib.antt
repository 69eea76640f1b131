-- ===== src/Lib.antt =====
-- A model of the AMAX system contracts, with proofs of what makes them correct.
--
-- The repository holds smart contracts for an EOSIO chain. A contract is a class whose actions
-- read and write tables that the chain keeps (`multi_index`, `singleton`), check the authorities
-- of the transaction, and abort the whole transaction by `check`. Contracts meet in two ways: an
-- action sends an inline action to another contract, and a contract is told of another one's
-- transfers. The token contract is read by most of the others, for balances and blacklists.
--
-- Which file models which part (paths from the repository's root):
--   Common      Results with an error message, lists, options, and integers over the native
--               numbers. `Result` stands for an action that returns or aborts; an abort carries
--               no state, because the chain takes back all that the transaction wrote.
--   Chain       What the contracts use of the SDK and the chain: names as their 64-bit values
--               (Chain/Names has the ones the sources write out), symbols, assets, the
--               authorities of a transaction, and tables (Chain/Table). The arithmetic of
--               `eosio::asset` and the validity of symbols belong to the SDK, so they are the
--               parameter `Sdk`; `IsSdk` says what the SDK documents of them: a sum or a
--               difference is exact or it aborts, and it does not abort within the range;
--               an asset is made if its amount is in range and its symbol valid, and not else.
--               Chain/Sample is one concrete SDK, for the examples.
--   Token       src_system/contracts/amax.token/src/amax.token.cpp and its header. Each action
--               has its name in the source, but `open` is `open_account`, because a name may not
--               be a keyword. The child modules prove: Balances (sums over the table of
--               accounts), Invariant, Effects and Preserve (what each action does to them),
--               Actions (all that can happen to the contract), Transfers, Authority, Blacklists.
--   Xtoken      src_system/contracts/amax.xtoken/src/amax.xtoken.cpp and its header: a token
--               whose transfers pay a fee. Xtoken holds what moves balances (`transfer`,
--               `transferfee`, the fee of a transfer), Xtoken/Admin the other actions. The
--               arithmetic of the fee, which the source does in 128 bits, is over all integers.
--   Msig        src_system/contracts/amax.msig/src/amax.msig.cpp and its header: proposals,
--               their approvals, and invalidations. Msig holds the state, Msig/Operations the
--               actions. Serialised transactions and the host's test of authorities are
--               parameters.
--   One         src_mining/contracts/amax.one/src/amax_one.cpp and its tables: the swap of APL
--               tokens for mined ones, with orders that wait for the check of an advertisement.
--   Ido         src_mining/contracts/amax.ido/src/amax_ido.cpp with its math.hpp: the sale of AMAX
--               for MUSDT. Its integers wrap where those of the source do, and its theorem on a
--               sale says how far they do not.
--   Reward      src_system/contracts/amax.reward/src/amax.reward.cpp: what producers send is shared
--               among those who vote for them. Reward holds the arithmetic and the loop that shares
--               out, Reward/Merge the comparison of an old and a new vote, Reward/Operations the
--               actions. Rows, Allotments, Solvency and Runs follow the rewards; Weights, Ballots,
--               Tallies and Elections follow the votes; Limits is about the rates.
--   System/Pay  src_system/contracts/amax.system/src/producer_pay.cpp: the rewards of producers.
--               System/Pay holds the arithmetic, Operations the part of `onblock` that rewards and
--               the actions. Increments, Blocks, Claims and Issues are proofs of what each
--               moves, Readiness and Configurations are about rewards that are not yet configured,
--               and Runs is about any run.
--   System/Elect  src_system/contracts/amax.system/src/voting.cpp, and the headers that it uses: who
--               is elected. System/Elect has the order of producers (Order: it is that of the
--               index), Elect/Changes the changes of the schedule and their merging
--               (`producer_change_helper`; Changes/Merging), and Elect/Queue the queues of the main
--               and the backup producers (`queue_helper`, `process_elected_producer`): Steps and
--               Places have the parts by where a producer was and is, and Process puts them
--               together. Nets, Balance, Steady, Moves, Backup, Joins and Lengths are the proof that
--               lengths and changes balance.
--   Safe        src_mining/contracts/amax.ido/include/safe.hpp, and its copies beside amax.one and
--               amax.two: 64-bit arithmetic that checks before it computes.
--
-- Conventions. A contract's state is a record with a field for each table; a table is a
-- list of rows with scope, primary key and payer. `emplace` aborts on a key that is there,
-- as the host does. Reading a missing key is an option, and the source's messages are kept.
-- Inline actions and notifications are values in the state: a list of the accounts told, or
-- a list of the actions sent. Amounts are unbounded integers, and their 64-bit range is in
-- the laws of the SDK; where a contract computes on machine integers itself, the file says
-- what is kept of that. Every action is total: loops run over a list of the transaction's
-- data or of a table, so nothing needs fuel. What happens to a contract over time is a
-- relation `Reach` from its start, or `Run` from any state, built from dispatched actions,
-- each in an environment of its own.
--
-- Not modelled: the system contract's resource market and its old votes (their weights are
-- floating-point numbers), the actions of its voters, the registration of producers, the name
-- bids, amax.two, and the parsing of amounts in the text helpers; serialisation, the dispatch of
-- actions by macros, and the cost of memory beyond the payer that each row records.
pub mod Common
pub mod Chain
pub mod Token
pub mod Xtoken
pub mod Msig
pub mod One
pub mod Safe
pub mod Ido
pub mod Reward
pub mod System
