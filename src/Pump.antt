-- ===== src/Pump.antt =====
-- pump.rs: the counters of a session.
pub mod Poll
pub mod Events
mod Tests
use psicose.Prelude.{ℕ}

pub record SessionStats : Type 0 where
  pub bytes_delivered : ℕ
  pub frames_sent : ℕ
  pub retries : ℕ
  pub nacks : ℕ
  pub duplicates : ℕ
  pub crc_errors : ℕ
  pub ticks : ℕ

-- `SessionStats::new()`.
abbrev pub no_stats : SessionStats
no_stats = record {
  bytes_delivered = 0;
  frames_sent = 0;
  retries = 0;
  nacks = 0;
  duplicates = 0;
  crc_errors = 0;
  ticks = 0;
}
