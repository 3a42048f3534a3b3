-- ===== src/Manager/Config.antt =====
-- The manager's configuration (crates/download-manager/src/config.rs).
use open_download_manager.Prelude.{ℕ}
use open_download_manager.Manager.Bandwidth.{BandwidthPolicy, unlimited}

pub data RecoveryPolicy : Type 0 where
  failed queued : RecoveryPolicy

pub record ManagerConfig : Type 0 where
  pub max_concurrent_downloads : ℕ
  pub bandwidth : BandwidthPolicy
  pub recover_interrupted : RecoveryPolicy

-- `Default`.
unfoldable pub default_config : ManagerConfig
unfolding unlimited
default_config = record {
  max_concurrent_downloads = 3;
  bandwidth = unlimited;
  recover_interrupted = RecoveryPolicy.failed;
}
