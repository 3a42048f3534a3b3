-- ===== src/Core/Display.antt =====
-- How numbers and errors are printed: the `Display` that `thiserror` derives from the `#[error]`
-- attributes of crates/core/src/error.rs.
use Prim.Native.String.{◌++◌}
use open_download_manager.Prelude.{
  ℕ, zero, suc, ◌/◌, ◌%◌, ◌≡◌, refl, String, ltb, ◌==◌, if◌then◌else◌,
}
use open_download_manager.Core.Error.{Error}

digit : ℕ → String
digit d =
    if d == 0
    then "0"
    else if d == 1
    then "1"
    else if d == 2
    then "2"
    else if d == 3
    then "3"
    else if d == 4
    then "4"
    else if d == 5
    then "5"
    else if d == 6
    then "6"
    else if d == 7
    then "7"
    else if d == 8
    then "8"
    else "9"

-- The digits of `n` before `acc`; a number below 2 ^ 64 has at most twenty.
decimal_from : ℕ → ℕ → String → String
unfolding digit
decimal_from zero n acc = acc
decimal_from (suc fuel) n acc =
    let more = decimal_from fuel (n / 10) (digit (n % 10) ++ acc) in
    if ltb n 10 then digit n ++ acc else more

unfoldable pub decimal : ℕ → String
unfolding decimal_from
decimal n = decimal_from (suc n) n ""

decimal_test : decimal 1048576 ≡ "1048576"
unfolding decimal
decimal_test = refl

unfoldable pub to_string : Error → String
unfolding decimal
to_string (Error.invalid_url m) = "invalid URL: " ++ m
to_string (Error.invalid_path m) = "invalid path: " ++ m
to_string (Error.invalid_file_name m) = "invalid file name: " ++ m
to_string (Error.network m) = "network error: " ++ m
to_string (Error.http status url) = "HTTP error: status " ++ decimal status ++ " for " ++ url
to_string (Error.too_many_redirects limit) = "too many redirects (limit: " ++ decimal limit ++ ")"
to_string (Error.invalid_response m) = "invalid HTTP response: " ++ m
to_string Error.range_requests_unsupported = "range requests not supported by server"
to_string (Error.filesystem m) = "filesystem error: " ++ m
to_string (Error.already_exists m) = "file already exists at " ++ m
to_string (Error.insufficient_disk_space needed available) =
    "insufficient disk space: need " ++ decimal needed ++ " bytes, have " ++ decimal available
to_string Error.cancelled = "download cancelled"
to_string Error.interrupted = "download interrupted"
to_string (Error.internal m) = "internal error: " ++ m

to_string_test : to_string (Error.http 404 "u") ≡ "HTTP error: status 404 for u"
unfolding to_string
to_string_test = refl
