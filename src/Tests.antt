-- ===== src/Tests.antt =====
-- The theorems at concrete inputs, and runs of the model on inputs that one can follow in the source.
mod Calls
mod Files
mod Messages
mod Library
mod Text
mod Sorting
mod Programs
mod Network
