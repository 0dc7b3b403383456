-- ===== src/Uecc.antt =====
-- vendors/ocaml-uecc/src/uECC.c and curve-specific.h: the multi-precision integers, and over them
-- the points, keys and signatures of P-256 that lib_crypto uses, with 64-bit words (uECC_WORD_SIZE
-- is 8 and the compiler has 128-bit integers).
pub mod Vli
pub mod Value
pub mod Sum
pub mod Shift
pub mod Compare
pub mod ModSum
pub mod Mult
pub mod Mmod
pub mod NumBits
pub mod Align
pub mod Reduce
pub mod Congruence
pub mod InverseRound
pub mod InverseLoop
pub mod Inverse
pub mod P256
pub mod P256Terms
pub mod P256Sum
pub mod P256Loops
pub mod P256Reduce
pub mod MulAdd
pub mod Curve
pub mod Points
pub mod Keys
pub mod Hmac
pub mod Ecdsa
pub mod Verify
pub mod Deterministic
pub mod Field
pub mod Formulas
pub mod PointSums
pub mod PointDouble
pub mod PointMult
pub mod HmacHash
pub mod Random
mod Draws
pub mod KeyRange
mod RoundTrip
pub mod PointValid
pub mod Bytes
pub mod VerifyRange
pub mod P256Order
pub mod Columns
pub mod Loops
pub mod SquareSum
pub mod Product
pub mod Square
mod Runs
mod Tests
mod ModTests
mod PointTests
mod DrawTests
