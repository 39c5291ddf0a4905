-- ===== src/CpuTests.antt =====
-- The programs of software-test/cpu-tests, which run on the core and check their own results.
mod Tests
mod Passes
pub mod Trap
pub mod Sort
pub mod Primes
pub mod Bits
pub mod Crc
pub mod Recursion
pub mod Signed
pub mod Matrix
pub mod Shift
pub mod Strings
pub mod HelloStr
pub mod Loads
pub mod Mersenne
pub mod Branches
pub mod Numbers
