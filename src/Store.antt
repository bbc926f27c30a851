-- ===== src/Store.antt =====
-- The rows of the PostgreSQL tables that the services read and write (app/database.py), and
-- the transaction monad.
mod Rows
mod Production
mod Devices
mod Tables
mod Service
mod Monad
mod Outcomes
pub use Rows.*
pub use Production.*
pub use Devices.*
pub use Tables.*
pub use Service.*
unfoldable pub use Monad.*
pub use Outcomes.*
