-- ===== src/Programs.antt =====
-- The two programs: main/, client/client.cpp and server/server.cpp.
pub mod Retries
pub mod ClientProgram
pub mod ServerProgram
pub mod Requests
pub mod Asking
pub mod Service
pub mod Fulfilling
pub mod Menu
mod Tests
use reliable_data_transfer.Base.{ℕ, Bool, Option, none, some, ltb, ◌||◌, if◌then◌else◌}
use reliable_data_transfer.Workers.{ProtoType, obtain_type}

-- Both main programs: the number that was typed, or `exit(1)`. A negative number is refused as 0 is.
unfoldable pub choose_protocol : ℕ → Option ProtoType
choose_protocol id = if ltb id 1 || ltb 4 id then none else some (obtain_type id)
