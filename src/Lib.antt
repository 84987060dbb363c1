-- ===== src/Lib.antt =====
-- CosmWasm Plus: the contracts under contracts/ and the packages under packages/ that they share.
--
-- The program. A contract keeps its state in the storage of a chain, and the chain calls it with
-- one message at a time; a call returns an error, and then the storage is as it was before, or it
-- returns messages that the chain dispatches afterwards. The development follows eight contracts.
-- contracts/cw20-base is a token: balances, a supply with a cap, allowances that let one account
-- spend from another, a logo. contracts/cw3-fixed-multisig lets a fixed set of voters decide on
-- messages that it then sends; it keeps proposals of packages/cw3, which decides from the tally
-- whether a proposal has passed or can no longer pass. contracts/cw4-group keeps weighted members
-- that an admin edits, and tells its hooks of each edit; contracts/cw4-stake is a group whose
-- weights follow the tokens that its members stake. contracts/cw3-flex-multisig decides like the
-- fixed multisig, with the members of a cw4 group as voters and with deposits on proposals.
-- contracts/cw1-whitelist sends the messages of its admins; contracts/cw1-subkeys lets other
-- accounts send some too, within allowances and permissions. contracts/cw20-ics20 sends tokens of
-- its chain over IBC channels, with a balance for each channel and denomination, and pays them out
-- when they come home or their packet fails.
--
-- The files.
--   Base, Base/*        tests on numbers, results, machine words, ordered association lists
--   Host                what the contracts take from cosmwasm_std, cw_utils, cw_storage_plus, cw2
--   Cw3                 packages/cw3/src/proposal.rs, with Vote, Status and DepositInfo
--   Cw3/Needed          votes_needed
--   Cw3/Outcome         is_passed, is_rejected and current_status without panics
--   Cw3/Certain         what the answers mean, and that they are final
--   Cw20                packages/cw20: the data of the token's interface
--   Cw20Base/State      contracts/cw20-base/src/state.rs and error.rs
--   Cw20Base/Logos      the checks of a logo
--   Cw20Base/Transfer   transfer, burn, mint, send, update_minter
--   Cw20Base/Allowances contracts/cw20-base/src/allowances.rs
--   Cw20Base/Marketing  update_marketing, upload_logo
--   Cw20Base/Instantiate, Cw20Base/Execute   the entry points instantiate, execute, migrate
--   Cw20Base/Queries    the queries, with contracts/cw20-base/src/enumerable.rs
--   Cw20Base/Steps      what a handled message has done, for each handler
--   Cw20Base/Ledger, Backed, Mirror, Holders, Cap, Genesis, Migration, Answers   the token's
--                       properties
--   Cw3Fixed/State      contracts/cw3-fixed-multisig/src/state.rs, msg.rs and error.rs
--   Cw3Fixed/Handlers   instantiate, execute and its handlers
--   Cw3Fixed/Queries    the queries of the multisig, with pages of `Base/Dict/Page`
--   Cw3Fixed/Ballots, Steps, History, Tally, Founding, Decisions, Answers   the multisig's
--                       properties
--   Cw4Group/State      packages/cw4 (Member, MemberDiff), contracts/cw4-group/src/state.rs, msg.rs
--   Cw4Group/Handlers   contracts/cw4-group/src/contract.rs, validate_unique_members of helpers.rs
--   Cw4Group/Sums, Changes   the group's properties
--   Cw1Whitelist/State, Handlers, Proxy   contracts/cw1-whitelist and its properties
--   Cw1Subkeys/State    contracts/cw1-subkeys/src/state.rs, msg.rs and error.rs
--   Cw1Subkeys/Handlers, Queries   contracts/cw1-subkeys/src/contract.rs
--   Cw1Subkeys/Spending, Access    the properties of the subkeys
--   Cw4Stake/State      contracts/cw4-stake/src/state.rs, msg.rs and error.rs
--   Cw4Stake/Handlers   contracts/cw4-stake/src/contract.rs
--   Cw4Stake/Membership, Money, Owed, Scale, Weights, Waiting, Payouts   the properties of the
--                       stakes
--   Cw3/Deposits        packages/cw3/src/deposit.rs
--   Cw3Flex/State       contracts/cw3-flex-multisig/src/state.rs, msg.rs and error.rs, and the
--                       questions of packages/cw4/src/helpers.rs that it asks its group
--   Cw3Flex/Handlers, Queries   contracts/cw3-flex-multisig/src/contract.rs
--   Cw3Flex/Steps, History, Refunds, Executors, Snapshots   the properties of the flex multisig
--   Cw3Flex/Grouped     the flex multisig on the storage of a cw4-group
--   Cw20Ics20/State     contracts/cw20-ics20/src/state.rs, amount.rs, msg.rs and error.rs
--   Cw20Ics20/Handlers  contracts/cw20-ics20/src/contract.rs
--   Cw20Ics20/Migrate   its migrate, with migrations.rs
--   Cw20Ics20/Ibc       contracts/cw20-ics20/src/ibc.rs
--   Cw20Ics20/Balances, Payments, Packets, Returns, Escrow, Solvency, Settled   the properties of
--                       the channels
--   Tests, Tests/*      a chain with plain functions, and runs of the contracts on it
--
-- How the code is read. The storage of a contract is a record with a field for each item and map
-- of its state.rs; a map is an association list with ascending keys, a map on pairs is a map of
-- maps. A handler takes the storage and returns `ok` with the new storage and the messages it
-- dispatches, `err` with the contract's error, or `panic` where Rust panics: the workspace builds
-- with overflow checks, so `+` on integers panics where there is no value. Strings and addresses
-- are numbers in their lexicographic order. Expirations, decimals and messages are numbers too,
-- and only `Host` computes with them. `Host` is a parameter of all handlers: its fields are the
-- functions of the crates above, and its laws what their documentation says of them (checked
-- arithmetic, `Threshold::validate`, a validated address is the text that was validated).
-- Every loop of the code is a recursion on the list it walks, so nothing needs a bound or fuel.
--
-- What is not modelled: attributes and events of a response, serialization, gas, the values that
-- cw_storage_plus keeps of a group at earlier heights, and a migration of cw20-ics20 between other
-- steps. The crate cw_controllers, with the admin and the hooks of a group and the claims of its
-- stakers, is a parameter of the groups' handlers (`Controllers`, `Claims`), and so are the sums
-- and payments of coins of cw_utils (`Wallets`, `Payments`). What the flex multisig asks other
-- contracts is a parameter too (`Querier`). Packets of IBC, their encoding and the texts of
-- denominations, which cw20-ics20 builds and takes apart, are a parameter of it (`Outside`), and so
-- are the versions and balances that its migration asks for (`Chain`).
pub mod Base
pub mod Host
pub mod Cw1Subkeys
pub mod Cw1Whitelist
pub mod Cw3
pub mod Cw20
pub mod Cw20Base
pub mod Cw20Ics20
pub mod Cw3Fixed
pub mod Cw3Flex
pub mod Cw4Group
pub mod Cw4Stake
pub mod Tests
