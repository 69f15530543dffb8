-- ===== src/Tests.antt =====
-- The theorems at concrete inputs, a module for each part of the program.
mod Borrowing
mod Moving
mod Calling
mod Bounding
mod Composing
mod Ranging
mod Parsing
mod Scoping
mod Scanning
mod Running
