-- ===== src/Tables.antt =====
-- tools/generate_tables.py: how it reads what the programs print.
mod Columns
mod Line
mod Numbers
mod ReadBack
mod LineBack
unfoldable pub use Columns.*
unfoldable pub use Line.*
pub use ReadBack.*
pub use LineBack.*
