-- ===== src/Tests/Files.antt =====
-- The validators of names and paths on concrete inputs.
use open_download_manager.Prelude.{◌≡◌, ◌≢◌, some, [], true, false, any, not, ◌&&◌, ◌||◌}
use open_download_manager.Core.Error.{is_ok}
use open_download_manager.Storage.Chars.{codes, is_empty}
use open_download_manager.Storage.Filename.{sanitize_filename, validate_filename, is_valid, trimmed}
use open_download_manager.Storage.Filename.Sanitize.{
  forbidden, last, sanitize_filename-safe, sanitize_filename-valid,
}
use open_download_manager.Storage.Path.{validate_path}
use open_download_manager.Storage.Path.Accepted.{is_safe, is_absolute, validate_path-ok}

sanitize_filename-safe_example :
    let safe = sanitize_filename false (codes "a/b:c. ") in
    (safe ≢ []) × (any forbidden safe ≡ false) × (last safe ≢ some b' ') × (last safe ≢ some b'.')
sanitize_filename-safe_example = sanitize_filename-safe false (codes "a/b:c. ")

sanitize_filename-valid_example :
    is_valid (validate_filename true (sanitize_filename true (codes "nul"))) ≡ (
      is_empty (trimmed (codes "nul")) || is_valid (validate_filename true (trimmed (codes "nul"))))
sanitize_filename-valid_example = sanitize_filename-valid true (codes "nul")

validate_path-ok_example :
    is_ok (validate_path (codes "a/../b"))
    ≡ (is_safe (codes "a/../b") && not (is_absolute (codes "a/../b")))
validate_path-ok_example = validate_path-ok (codes "a/../b")
