-- ===== src/Features.antt =====
-- features/*.go: the simulations behind the feature files, as machines whose steps are the steps of a
-- scenario. A step may fail with an error, and the scenario's context is what it leaves. `Format`
-- is what `fmt` makes of numbers, of quoted texts and of errors.
pub mod Format
pub mod Facts
pub mod Merge
