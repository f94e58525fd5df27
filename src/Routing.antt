-- ===== src/Routing.antt =====
-- internal/router: rules, the matchers that they become, and the table of routes. A text is the list
-- of its bytes; rules are ASCII, so that bytes and runes agree.
pub mod Bytes
pub mod Matcher
pub mod Rule
pub mod Table
pub mod Sample
mod Examples
