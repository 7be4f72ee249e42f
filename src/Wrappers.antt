-- ===== src/Wrappers.antt =====
-- wrappers.go: the wrapper types around messages. Each method is written out as the source does it,
-- with the embedded pointer as an `Option`.
pub mod Base
pub mod CoverW
pub mod EventBookW
pub mod CommandBookW
pub mod QueryW
pub mod Pages
pub mod Agreement
