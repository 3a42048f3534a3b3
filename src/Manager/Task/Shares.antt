-- ===== src/Manager/Task/Shares.antt =====
-- The share of the bandwidth that a transfer is given when its task starts (`run_download` of
-- crates/download-manager/src/manager.rs, with crates/download-manager/src/bandwidth.rs).
