-- ===== src/EconomyPort.antt =====
-- src/ports/economy_port.js: the requests and the responses that the port lets through.
mod Patterns
mod Request
mod Response
mod Port
mod Outcomes
mod Distribution
mod Calls
mod Tests
unfoldable pub use Patterns.{
  is_positive_integer, is_non_negative_integer, is_decimal_integer, is_iso_date, value_from,
  decimal_value, ends_with,
}
pub use Request.{
  economy_port_version, Operation, balance, eligibility, activity_day, quote, reserve, release,
  settle, transfer, escrow, ledger, Sign, signed, non_negative, positive,
}
unfoldable pub use Request.{
  read_operation, assert_non_empty_string, assert_version, assert_micro_e, walk_micro_e, walk_items,
  walk_fields, assert_positive_micro_e, allocation_total, assert_distribute, assert_escrow,
  assert_request_payload, assert_economy_port_request,
}
unfoldable pub use Response.{assert_economy_port_response}
unfoldable pub use Port.{create_economy_port}
