-- ===== src/Js.antt =====
-- The values and texts of the language, and the parts of its library that the program uses.
mod Defs
pub mod Text
pub mod FieldLaws
pub mod Json
pub mod Order
pub use Defs.{Number, int, fraction, not_finite}
pub use Defs.{Value, undefined, null, function, boolean, number, string, array, object, instance_of}
pub use Defs.{Items, nil, cons, Fields, end, field}
unfoldable pub use Defs.{get_field, get, set_field}
pub use Defs.{is_undefined, is_null, is_string, is_non_empty_string, is_object, or_else}
pub use Defs.{is_true, is_false, is_one_of, same_text, text_of, when_defined, text_field}
