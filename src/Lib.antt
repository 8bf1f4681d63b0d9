-- ===== src/Lib.antt =====
-- A verification library for Popsicle: the pallets sequencer staking, grouping of the selected
-- sequencers and allocation of container applications to the groups, and the task of a node that runs
-- the application of its group.
--
-- How the parts interact. Accounts become sequencer candidates and others delegate to them
-- (pallets/sequencer-staking). The hook of a block turns the rounds, pays one sequencer of a past round
-- a block, and at the snapshot block of a round selects the best candidates for the next round and
-- hands them to the grouping. There they are shuffled and split into groups, and the groups are dealt
-- to processors (pallets/sequencer-grouping). Each group is given an application that no other group
-- runs (pallets/container), and a node asks by the account of its sequencer which application to load;
-- on a new best head it downloads that application, starts it, and later switches to it (node).
--
-- The style. A call is a function from the storage to an outcome (a value, an error, or a panic) and
-- the storage after it; do blocks chain calls as `?` and `;` do in the source. What was written
-- before an error is part of the result: a failed extrinsic is rolled back by the dispatcher, an
-- error that the code drops is not. A struct with `&mut self` methods is a record that the method
-- returns. An account is a number, of which only the order is used; a balance is a u128, a round
-- index and a count are u32, and what saturates or wraps is written out. Plain `+` and `-` on u32 and
-- u64 wrap, as in a release build. A storage map is a function.
--
-- The files.
--   Prelude: shared names; Prelude/Tests, Lists, Sorting (stable sort, binary search), Sorted (lists in
--     order, their heads and tails), Words (machine integers), Effects (calls), Origin (the checks of
--     frame_system on an origin).
--   Staking/Set: pallets/sequencer-staking/src/set.rs, `OrderedSet` and the bounded set, over a key
--     that stands for the order. Set/Laws, Set/Build.
--   Staking/Types, Staking/Storage: the data of types.rs and delegation_requests.rs; the storage,
--     events, errors and configuration of lib.rs. The assets and currency pallets are a parameter: a
--     state `Ledger`, and functions for the calls that the pallet makes.
--   Staking/Delegations: `Delegations`. Insertion compares the sorted insertion with a plain one; Sums
--     has the lemmas on weights, by which two lists are shown to hold the same delegations.
--   Staking/Pool: `Pallet::update_active`. Staking/Delegator: `Delegator`.
--   Staking/Candidate: `CandidateMetadata`. Book has `add_delegation` to `rm_bottom_delegation`, Adjust
--     the raises and cuts, Bond the self bond and the exit. Invariant says when lists and metadata are
--     as they should be; Untouched, Pending, Kick, Splitting, Adding, Admission, Without, Removing,
--     Removal, Finding, Adjusted and Adjusting treat admission, removal, raise and cut.
--   Staking/Calls: the calls of candidates in lib.rs. Pooled, Enrolment, Bonding and History treat the
--     pool against the metadata. Staking/Requests: delegation_requests.rs; Roundtrip, Execution.
--     Staking/Delegating: the calls of delegators, and the exit of a candidate; Joining treats
--     `delegate`.
--   Staking/Selection: `compute_top_candidates`, `select_top_candidates` and the snapshots; Ranking, Top,
--     Rewardable, Snapshots, Choosing, Standing and Backing treat them. Staking/Payouts:
--     `prepare_staking_payouts` to `pay_one_sequencer_reward` and traits.rs; Shares, Draining, Bounds,
--     Frame and Rewards. Perbill is a parameter, with its laws where a theorem needs them.
--   Staking/Rounds: `on_initialize`, the points, `notify_inactive_sequencer` and the fix for requests of
--     former candidates; Clock, Sound, Safety, Blocks, Stalled, Points, Inactivity and Snapshot.
--     Staking/Genesis: the genesis build; Founding.
--   Grouping: pallets/sequencer-grouping/src/lib.rs. Shuffle, Groups, Dealing and Assignment treat the
--     loops, Trigger the whole of `trigger_group`, Processors the registry and the queries.
--   Container: pallets/container/src/lib.rs and primitives/container/src/lib.rs. Allocation treats
--     `on_finalize`, Registry `register_app`, History every sequence of calls and blocks.
--   ContainerTask: node/src/container_task.rs. Processes, docker, files and the network are a parameter,
--     the record `Host`. Ranges treats the byte ranges of a download, Replacing, Switching and
--     Unrecorded the processes and their records, Keeping what the tasks leave alone; Steps has the node
--     with its spawned tasks, Status and Stuck treat the status of the application through every
--     sequence of steps.
--   Examples, in each part, with Staking/Sample, CallExamples, RoundSample and RoundExamples: concrete
--     runs, and instances of the theorems whose hypotheses hold.
--
-- Fuel. `skip_equal`, the walk past equal amounts in `insert_sorted_greatest_to_least`, has the
-- length of the list as fuel, which is enough since each round goes one place on. `collect`, the
-- iteration over the ranges of a download, has one more than the number of bytes, where there is one.
-- Runs over blocks are recursions on the number of blocks. All other loops are recursions on the list
-- or on the counter.
--
-- Not modelled: the assembly of the node and its command line, and of the runtime with its constants;
-- weights, tests and benchmarks. Of the container task, `download_sdk` but for its ranges, and the
-- stream of relay chain heads: they are input and output, and parameters here. The genesis build with
-- delegations has definitions, but no theorem.
pub mod Prelude
pub mod Staking
pub mod Grouping
pub mod Container
pub mod ContainerTask
