-- ===== src/Gen.antt =====
-- internal/testigogen: what the command testigo-gen makes of a specification. What the type checker of
-- go/types tells of a type stands in Gen/Types; the Go source that is printed is not modelled beyond
-- the names and the decisions that it is made of.
pub mod Types
pub mod Imports
pub mod Methods
pub mod Naming
pub mod Seeder
pub mod Seeding
pub mod Tags
pub mod Printing
pub mod Model
pub mod Loading
pub mod RandomFuncs
pub mod Declared
pub mod Stubs
pub mod Expressions
pub mod Serving
pub mod Aliases
pub mod Tests
pub mod StubTests
