-- ===== src/Lib.antt =====
-- rusty-cpp-checker, a borrow checker for C++ (repository shuaimu/rustycpp, sources in src/).
--
-- The program reads a C++ file with libclang, turns the functions into a syntax tree, searches the
-- functions marked safe for pointer operations and for calls of unsafe functions, converts the tree
-- into an intermediate representation, and runs a borrow checker over it that follows moves,
-- borrows, scopes, conditionals and loops. Bounds of lifetimes that headers declare are checked
-- along the way.
--
-- Entities      what is asked of libclang: a finite tree of entities with their answers
-- Expressions   the expressions of entities: src/parser/ast_visitor.rs, `extract_expression`
-- Extraction    functions, variables and statements: the same file
-- Visiting      which entities become functions: src/parser/mod.rs, `visit_entity`
-- Ast           the syntax tree: src/parser/ast_visitor.rs
-- Safety        the scan of a file for annotations, and which functions are checked:
--               src/parser/safety_annotations.rs, src/main.rs
-- Annotations   signatures, and how comments give them: src/parser/annotations.rs
-- Headers       the cache of signatures from header files: src/parser/header_cache.rs
-- Pointers      pointer operations: src/analysis/pointer_safety.rs
-- Propagation   calls of unsafe functions: src/analysis/unsafe_propagation.rs
-- Ir            the intermediate representation: src/ir/mod.rs, lines 5-138
-- Build         the conversion: src/ir/mod.rs, lines 140-490, `convert_statement` and the rest
-- Tracker       `OwnershipTracker`, the tables that the checker keeps: src/analysis/mod.rs
-- Checker       `check_function` and `process_statement`: src/analysis/mod.rs
-- Outlives      `LifetimeScope` and its search: src/analysis/lifetime_checker.rs
-- Calls         the checks of calls, borrows and returns that use it: the same file
-- Scopes        `ScopedLifetimeTracker` and the queue over blocks: src/analysis/scope_lifetime.rs
-- Inference     `LifetimeInferencer` and its validation: src/analysis/lifetime_inference.rs
-- Lifetimes     constraints between named lifetimes: src/analysis/lifetimes.rs
-- Borrows       `BorrowChecker`: src/analysis/borrows.rs
-- Ownership     `OwnershipAnalyzer`: src/analysis/ownership.rs
-- ScopeAware    `ScopeAwareOwnershipTracker`: src/analysis/scope_aware.rs
-- Scoped        statements with their nesting: src/parser/block_scope_tracker.rs
-- Pipeline      how the analyses of a program are put together: src/main.rs, src/analysis/mod.rs
-- CommandLine   include paths, and `analyze_file` from a file name to its errors: src/main.rs,
--               src/parser/mod.rs
-- Common        tests, lists, maps, sets, texts and outcomes that all of them share
-- Tests         the theorems at concrete inputs
--
-- State and operations. A method that changes `self` returns the new record under the same name;
-- the list of errors that functions push to is a field of `Checker`. A hash map is an association
-- list whose `insert` replaces an entry, and a hash set is a list of names; the code iterates over
-- them in an arbitrary order, the model in the order of the list. A name from the source stands for
-- its definition here, in this language's spelling. Code that may panic has an `Outcome`.
--
-- Parameters. libclang, regex, serde_json, the file system and the environment are arguments of
-- the definitions that use them: `Entities.Entity`, `Annotations.Reading.Regexes`,
-- `Headers.Surroundings`, `CommandLine.Environment` and `Safety.Scan.SourceFile`. The derived text
-- of an expression is the argument `debug`. A graph of petgraph is its blocks in order and its
-- edges, which end at its blocks. Paths are texts, compared by their components.
--
-- Fuel. `check_statements` takes as much as the block has statements, and `check_outlives` one more
-- than the number of bounds. `is_ancestor_scope`, whose loop has no bound in the source, takes one
-- more than the number of scopes, which is enough where parents are older than their children.
-- `analyze_queue` takes one for each entry and each edge, and one more, and `split` one for each
-- byte, and one more. All else is structural recursion.
--
-- Not modelled: what is printed to the terminal, the diagnostics with their colours, the arguments
-- that clap reads, the z3 wrapper of src/solver, and the functions `check_file_safety_annotation`
-- and `check_for_unsafe_annotation`, which nothing calls. The files src/analysis/scope_aware.rs and
-- src/parser/block_scope_tracker.rs are modelled, but are in no module of the crate.
-- Counters are natural numbers: they grow by at most two for each statement of a function.
mod Common
pub mod Ir
pub mod Tracker
pub mod Checker
pub mod Ast
pub mod Entities
pub mod Expressions
pub mod Extraction
pub mod Visiting
pub mod Annotations
pub mod Headers
pub mod Outlives
pub mod Safety
pub mod Pointers
pub mod Propagation
pub mod Build
pub mod Borrows
pub mod Lifetimes
pub mod Ownership
pub mod Inference
pub mod Scopes
pub mod ScopeAware
pub mod Scoped
pub mod Calls
pub mod Pipeline
pub mod CommandLine
mod Tests
