-- ===== src/Addrs.antt =====
-- sourceaddrs: source addresses, and how they are combined. `Types` has the address types and what
-- the program takes from other packages; the other modules follow the source's files.
pub mod Local
pub mod SubPath
pub mod Tidy
pub mod Types
pub mod Remote
pub mod Registry
pub mod Source
pub mod Resolve
pub mod Secure
mod Samples
