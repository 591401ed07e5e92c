-- ===== src/Base/Text.antt =====
-- The `str` methods that the code calls, over the characters of a native text.
mod Trim
mod Split
mod Order
mod Numbers
mod Prefix
mod Blank
mod Decimal
mod Printed
mod Joined
mod Trimmed
unfoldable pub use Trim.*
unfoldable pub use Split.*
unfoldable pub use Order.*
unfoldable pub use Numbers.*
pub use Prefix.*
unfoldable pub use Blank.*
unfoldable pub use Decimal.*
pub use Printed.*
unfoldable pub use Joined.*
pub use Trimmed.*
pub use text.Mathlib.Text.{◌==◌ as str_eq}
pub use text.Mathlib.TextEquality.{eq_iff}
