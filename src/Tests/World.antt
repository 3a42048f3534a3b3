-- ===== src/Tests/World.antt =====
-- A small host: URLs and values are their texts, the store is the list of the rows saved, and every
-- save succeeds.
use open_download_manager.Prelude.{
  ℕ, ◌+◌, ◌-◌, ◌*◌, ◌/◌, List, [], ◌∷◌, none, some, arith, ltb, leb,
}
use open_download_manager.Core.Error.{ok}
use open_download_manager.Core.Libs.{Libs, since}
use open_download_manager.Core.Float.{Float, Ordered}
use open_download_manager.Core.State.{DownloadState}
use open_download_manager.Core.Backend.{DownloadId, http}
use open_download_manager.Manager.Config.{ManagerConfig, RecoveryPolicy}
use open_download_manager.Manager.Download.{Download, Store, Host}
use open_download_manager.Prelude.{String, false}

abbrev pub libs : Libs
libs = record {
  Url = String;
  url_parse = λ s. some s;
  url_to_string = λ u. u;
  url_scheme = λ u. "https";
  Value = String;
  null = "";
  value_to_string = λ v. some v;
  value_from_str = λ s. some s;
  uuid_to_string = λ n. "id";
  uuid_parse = λ s. some 0;
}

abbrev pub store : Store libs
store = record {
  Conn = List (Download libs);
  save = λ c d. ok (d ∷ c);
  list = λ c. ok c;
  remove = λ c id. ok c;
}

abbrev pub host : Host
host = record { libs = libs; store = store; clock = λ n. since n }

abbrev pub one_slot : ManagerConfig
one_slot = record {
  max_concurrent_downloads = 1;
  bandwidth = record { max_bytes_per_sec = none };
  recover_interrupted = RecoveryPolicy.queued;
}

abbrev pub row : DownloadId → DownloadState → Download libs
row id state = record {
  id = id;
  url = "https://example.com/a";
  destination = b'a' ∷ [];
  backend = http;
  state = state;
  overwrite = false;
  total_bytes = some 10;
  downloaded_bytes = 4;
  created_at = since 0;
  updated_at = since 0;
  started_at = some (since 0);
  completed_at = none;
  error = none;
  backend_meta = "";
}

-- Whole seconds and whole tokens.
abbrev pub whole : Float
whole = record {
  Carrier = ℕ;
  of_u64 = λ n. n;
  add = λ a b. a + b;
  sub = λ a b. a - b;
  mul = λ a b. a * b;
  div = λ a b. a / b;
  gt = λ a b. ltb b a;
  ge = λ a b. leb b a;
}

pub whole-Ordered : Ordered whole
whole-Ordered = record {
  gt-of_ge_gt = λ a b c h k. ground arith;
  ge-false_of_gt = λ a b h. ground arith;
  gt-irrefl = λ a. ground arith;
  sub-gt-false = λ a c n h. ground (arith, h);
}
