-- ===== src/Lib.antt =====
-- Models of the contracts that keep or pay out other people's tokens, with the properties that make
-- them correct.
--
-- The contracts are programs of their own. Each has tables of rows with 64-bit primary keys, actions
-- that accounts call, and most have a notification for incoming token transfers; an action writes
-- rows and sends token transfers. They meet in the token contracts, which are not part of the
-- repository's own code, and where one pays another with a memo that the other reads.
--
-- - Chain.antt and Chain/: what the contracts take from the chain's library (tables, asset
--   arithmetic, account names), as the record `Chain`, a parameter of every model, with its
--   documented behaviour as laws. Chain/Memory.antt is an instance, on which the examples run.
-- - Base.antt and Base/: tests on native numbers, signed integers, the result of an action with its
--   do notation, and the text functions `split`, `trim`, `to_uint64` of the contracts' utils.hpp.
-- - Arithmetic/Safe.antt and Arithmetic/Quotients.antt: `safe<int64_t>` of
--   contracts/flon.proxyswap/include/safe.hpp.
-- - Arithmetic.antt: `multiply_decimal`, `divide_decimal` and `power10` of
--   contracts/flon.split/include/utils.hpp and its copies in the other contracts.
-- - Vest.antt and Vest/: contracts/flon.vest/src/vest.cpp. A plan fixes a schedule, an issue locks
--   tokens for a receiver, who unlocks them over time. Vest/Transfers.antt is `ontransfer`; Vest/
--   Run.antt has histories of calls.
-- - Split.antt and Split/: contracts/flon.split/src/tokensplit.cpp. An incoming payment is split
--   among the receivers of a plan, either sent at once or kept in wallets until they are claimed.
-- - Redpack.antt and Redpack/: contracts/flon.redpack/src/redpack.cpp. A packet is funded by a
--   transfer and paid out in equal or random shares, one to each claimer.
-- - Airdrop.antt and Airdrop/: contracts/flon.airdrop/src/flon.airdrop.cpp. Oracles pay fixed
--   amounts of the tokens of a plan to beneficiaries.
-- - Blindbox.antt and Blindbox/: contracts/flon.blindbox/src/blindbox.cpp. The owner of a booth
--   stocks it with NFTs, which buyers draw at random. Its payments go to the split contract;
--   Blindbox/Funding.antt puts the two together.
-- - PriceOracle.antt and PriceOracle/: contracts/price.oracle/src/price.oracle.cpp. Oracles report
--   the prices of coins, each within limits next to the last one.
-- - Faucet.antt and Faucet/: contracts/flon.faucet/src/faucet.cpp. Anybody can have an account made
--   and be paid a fixed amount once a day.
-- - Swap.antt and Swap/: contracts/flon.proxyswap/src/flon.proxyswap.cpp. A payment places an order,
--   which the oracle finishes or cancels. Swap/Memo.antt is `on_transfer` with its memo, and
--   `asset_from_string` of the contract's utils.hpp.
-- - TokenSummary.antt and TokenSummary/: contracts/tokensummary/src/tokensummary.cpp, which prints
--   the balances of an account. TokenSummary/Amounts.antt has the reader of Swap/Memo.antt read them.
-- - PubkeyToken.antt and PubkeyToken/: contracts/pubkey.token/src/pubkey.token.cpp. Tokens are paid
--   in for a public key, and its holder has them moved to an account. PubkeyToken/Base58.antt is
--   include/pubkey_utils.hpp of the contract.
-- - Applybp.antt and Applybp/: contracts/flon.applybp/src/flon.applybp.cpp. Accounts write the
--   profiles with which they apply as block producers, and the administrator enables them.
-- - TestContract.antt and TestContract/: contracts/flon.test/src/testcontract.cpp. Actions that add
--   and erase rows of messages in every order.
-- - Creator.antt and Creator/: contracts/flon.creator/src/flon.creator.cpp. The administrator has
--   accounts created and gas bought for them.
--
-- In each model the tables are a record `State`, with the transfers that were sent as a list, the
-- last one first. An action is a function of the same name from a context (the contract's account,
-- the notifying token contract, the time, the signatures) and its arguments to a new state or an
-- error; an error leaves the old state, since the chain rolls a failed transaction back. Integers
-- of the source are signed integers or natural numbers, with `% 2 ^ 64` written out where an
-- unsigned one can wrap around. Times are in microseconds; the profiles of Applybp.antt keep seconds.
--
-- Loops are structural recursion over the rows or lists that the source iterates over. The limit of
-- twenty wallets in `claimall` is the fuel of its loop, as in the source. The loop of TestContract.antt
-- that erases from the first row on has a round of fuel for each row and one more, which is enough
-- since each round erases a row. No other fuel is used.
--
-- Not modelled: the memos of the transfers that are sent, printed messages, RAM payers, and the
-- balances of the token contracts. The order of a map from symbols is the order of insertion, which
-- shows only in the order of the transfers sent. The seed of a random share, which is hashed from
-- the block, and the DID tokens of a claimer are arguments of the action.
-- The hashes of the draws of a blind box are arguments, one list for each NFT bought, and so is
-- the table of the split plans that it reads.
pub mod Airdrop
pub mod Applybp
pub mod Arithmetic
pub mod Base
pub mod Blindbox
pub mod Chain
pub mod Creator
pub mod Faucet
pub mod PriceOracle
pub mod PubkeyToken
pub mod Redpack
pub mod Split
pub mod Swap
pub mod TestContract
pub mod TokenSummary
pub mod Vest
