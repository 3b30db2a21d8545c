-- ===== src/Text.antt =====
-- Python's `str` as a list of code points, with the operations of it that the source calls.
pub mod Chars
pub mod Strip
pub mod Find
pub mod Join
pub mod Encode
unfoldable pub use Chars.{
  Text, codes, is_lower, is_upper, is_digit, is_alphanum_lower, is_alphanum, is_safe,
}
unfoldable pub use Chars.{to_lower_ascii, head_sat, last_sat, text_eq, slice_to}
pub use Chars.{text_eq_iff}
unfoldable pub use Strip.{lstrip, rstrip}
unfoldable pub use Find.{starts_with, contains}
unfoldable pub use Join.{join}
unfoldable pub use Encode.{utf8}
