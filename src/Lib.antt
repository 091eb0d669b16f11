-- ===== src/Lib.antt =====
-- A verification library for testigo, a Go library of test doubles, asserts and test data.
--
-- The parts of the program and how they interact. A test double embeds a Spy; its methods call `Call`,
-- which appends a record of the call to the Spy and numbers it. A test states what it expects in
-- chains; a chain looks at the records of the spies that the test can see, and at the end of the test a
-- final check demands that every record is expected and that outcomes are asserted. The asserts on
-- values compare and render. Beside these stand an in-memory database for fakes, a package of random
-- test data that a seed or its phrase reproduces, builders of test values, the tree of calls that a
-- failure shows, and the generator of doubles, fixtures and seeders from a specification.
--
-- Which file models what:
--   Base and below: names of the libraries, native lists, texts as lists of byte codes, dictionaries,
--     integers, and the results of code that can panic.
--   Memdb, Memdb/Query: memdb/db.go, every method of DB and Query. Memdb/Table is the specification, a
--     list of keyed rows with its writes; Memdb/Invariant, Memdb/Refinement and Memdb/Rows the proofs.
--   Spy, Spy/Names, Spy/Match, Spy/Verify, Spy/Order: internal/core/spy.go without `Call`: records,
--     expectations, names, matching, verifyExpectations, assertCalls, checkUncoveredCalls, assertOrder.
--     Spy/Selecting, Spy/Counting, Spy/Uncovered, Spy/Extremes and Spy/Ordering hold the proofs.
--   Runtime: the state that internal/core keeps in package variables, with `Call`, `Clear`,
--     `collectTestCalls` (spy.go), `bindGoroutine` (mutations.go), `registerDoubleSpies`,
--     `registerSubtest`, `addOwnedSpies` (doubles.go), `noteObserved` (coverage.go). Runtime/Coverage is
--     the rest of coverage.go; Runtime/History has the histories of calls.
--   Calls: internal/core/calls.go: PendingCall, testVerifier, finalCheck. Calls/Ignored is the search for
--     thrown away results, Calls/Counted the verifiers of all goroutines, Calls/Session a whole test.
--   Doubles: internal/core/doubles.go: NewDouble, Run, Reset, the sets of resets, spiesOf and clearSpies;
--     cloneBaseline of snapshots.go on the fields that are spies. Doubles/Clearing: the proofs.
--   Spy/Closest: closestCall of spy.go, the call that a failure draws.
--   Asserts, Asserts/Render: internal/core/asserts.go (diffLines, renderLineOps, firstByteDiff,
--     hexWindow, truncateMiddle), behavior_asserts.go (difference), extra_asserts.go (subsetMissing).
--     Asserts/Lcs is the specification of the diff.
--   Asserts/Source: splitArgs, callArgExpression, errorOrigin and what else reads source lines in
--     asserts.go; Asserts/Args the proofs.
--   Asserts/Reflect: what reflection and formatting tell of a value, as a record of operations.
--     Asserts/Judging: isNil, isEmpty, length, contains, equalValues, samePointer, subsetMissing.
--     Asserts/Messages: the parts of a failure's message and the verdict of an assert.
--     Asserts/Values, Asserts/More, Asserts/Behavior: the asserts of asserts.go, value_asserts.go,
--     extra_asserts.go, ordered_asserts.go and behavior_asserts.go, with pollUntil.
--     Asserts/Includes and Asserts/Contains hold the proofs.
--   Graph: internal/core/graph.go: DrawGraph, roots, renderChildren. Graph/Ending: its recursion ends.
--   Gen and below, internal/testigogen: Gen/Types what go/types tells of a type, Gen/Imports imports.go,
--     Gen/Methods buildMethod and inferredParameterName of spy.go, Gen/Seeder seeder.go, Gen/Tags
--     parseArtifact of model.go, Gen/Model its checks and loadModel, Gen/RandomFuncs prepare of
--     generate.go, Gen/Stubs stub.go and the spies of spy.go, Gen/Expressions randomExpression of
--     generate.go. The proofs stand in Gen/Aliases, Gen/Declared, Gen/Naming, Gen/Seeding,
--     Gen/Serving, Gen/Printing and Gen/Loading; Gen/Printing writes the tags that a specification
--     would hold, which the repository reads only.
--   Base/Fresh is the loop that looks for a free name; Base/Trim and Base/Splitting texts.
--   Doubles/Changes: internal/core/mutations.go, and DidChange, DidNotChange and FieldChange of calls.go;
--     Doubles/Changing and Doubles/Pinned the proofs.
--   Seeder: seeder/seeder.go, with the proofs in Seeder/Persisting.
--   Random, Random/Source: random/phrase.go and random/random.go.
--   Fixture: fixture/fixture.go.
--   The files called Tests hold runs at concrete values.
--
-- Conventions. Numbers are natural numbers; the counter of calls is taken modulo 2^64, and the
-- multiplication of parsePhrase too. A pointer to a Spy, a test and a goroutine is a number. A record
-- of a call is known by its sequence number. A sync.Map is a dictionary and a method under a lock is
-- one step. The window of Within is an integer. The calls of the other function of an order chain are
-- found by its method name, as in the source. The keys of the in-memory database can be compared; an
-- unhashable key, at which the source panics, is left out. reflect.DeepEqual, the deep copy of
-- arguments and of fields of doubles, the generator of math/rand/v2, the clock, the frames of the
-- stack and the lines of source files are parameters; slices.SortStableFunc and the functions of
-- package strings are written by what they document, on single bytes.
--
-- Fuel. The walk of `add_owned_spies` up the parents of a test takes fuel, and `visited` tells whether
-- it comes to its end. A test is numbered below its subtests, so a fuel above the number of the test
-- is enough. The loop that looks for a free name is given one round more than there are used names: of
-- that many distinct names one is free. The drawing of calls needs more fuel than there are calls to
-- draw, as each descent draws a call for the first time.
--
-- Not modelled: the deep copy (internal/core/snapshots.go), the formatting and the field by field
-- diff of values (formatValue and diffValues of asserts.go), the line that the graph prints for one
-- call (renderNode), the text of generated Go source (internal/testigogen/generate.go, stub.go)
-- beyond its random expressions, the command (cmd), the facades (testigo.go, assert): they print
-- text, call the rest of the library line by line, or inspect Go values and types by reflection.
pub mod Base
pub mod Memdb
pub mod Spy
pub mod Runtime
pub mod Seeder
pub mod Calls
pub mod Doubles
pub mod Asserts
pub mod Random
pub mod Fixture
pub mod Gen
pub mod Graph
