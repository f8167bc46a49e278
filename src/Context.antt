-- ===== src/Context.antt =====
-- app/services/context.py: the Context Engine. `Sanitize` cleans a text, `Order` sorts the sources,
-- this file spends the token budget on them.
pub mod Sanitize
pub mod Order
pub mod Build
pub mod Sorting
pub mod Whole
pub mod Budget
