-- ===== src/Cli/Exit.antt =====
-- The exit codes of the command line (binaries/cli/src/exit.rs).
use open_download_manager.Prelude.{ℕ}
use open_download_manager.Core.Error.{Error}

pub data Exit : Type 0 where
  success invalid_argument network http filesystem cancelled internal : Exit

unfoldable pub from_error : Error → Exit
from_error (Error.invalid_url _) = invalid_argument
from_error (Error.invalid_path _) = invalid_argument
from_error (Error.invalid_file_name _) = invalid_argument
from_error (Error.invalid_response _) = invalid_argument
from_error (Error.too_many_redirects _) = invalid_argument
from_error (Error.network _) = network
from_error (Error.http _ _) = http
from_error Error.range_requests_unsupported = http
from_error (Error.filesystem _) = filesystem
from_error (Error.insufficient_disk_space _ _) = filesystem
from_error (Error.already_exists _) = filesystem
from_error Error.cancelled = cancelled
from_error Error.interrupted = cancelled
from_error (Error.internal _) = internal

-- The discriminant, as it leaves the process.
unfoldable pub exit_code : Exit → ℕ
exit_code success = 0
exit_code invalid_argument = 2
exit_code network = 3
exit_code http = 4
exit_code filesystem = 5
exit_code cancelled = 6
exit_code internal = 7
