-- ===== src/Text.antt =====
-- What the program uses of Go's packages `strings`, `sort`, `slices` and `bufio`. A Go string is the
-- list of the code points of its (valid) UTF-8 bytes; the order of code points is the order of bytes.
mod Order
mod Sort
mod Seen
pub mod Split
mod Scan
mod Maps
pub mod Paths
pub mod Decimal
mod Tests
unfoldable pub use Order.*
unfoldable pub use Sort.*
unfoldable pub use Seen.*
unfoldable pub use Split.*
unfoldable pub use Scan.*
unfoldable pub use Maps.*
unfoldable pub use Paths.*
unfoldable pub use Decimal.*
