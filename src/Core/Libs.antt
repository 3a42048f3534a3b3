-- ===== src/Core/Libs.antt =====
-- What the crates take from third-party libraries, as a parameter of the model: the URLs of `url`,
-- the JSON values of `serde_json` and the text form of a `uuid`. The clock of the host is here too.
use open_download_manager.Prelude.{ℕ, String, ◌≡◌, Option, some, List}

-- `SystemTime`, in nanoseconds from the Unix epoch; `before n` lies n + 1 of them before it.
pub data SystemTime : Type 0 where
  since before : ℕ → SystemTime

-- `Path` and `PathBuf` of a Unix host: bytes.
abbrev pub PathBuf : Type 0
PathBuf = List ℕ

pub record Libs : Type 1 where
  pub Url : Type 0
  pub url_parse : String → Option Url
  pub url_to_string : Url → String
  pub url_scheme : Url → String
  pub Value : Type 0
  pub null : Value
  pub value_to_string : Value → Option String
  pub value_from_str : String → Option Value
  pub uuid_to_string : ℕ → String
  pub uuid_parse : String → Option ℕ

-- The text forms that the libraries promise to read back.
pub record RoundTrips (L : Libs) : Type 0 where
  pub url : (u : L.Url) → L.url_parse (L.url_to_string u) ≡ some u
  pub uuid : (n : ℕ) → L.uuid_parse (L.uuid_to_string n) ≡ some n
  pub value :
      (v : L.Value) (s : String) → L.value_to_string v ≡ some s → L.value_from_str s ≡ some v
