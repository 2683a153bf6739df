-- ===== src/Transport.antt =====
-- transport/traits.rs: the byte transports, sources and sinks that an application implements.
use psicose.Prelude.{ℕ, Option, Result}

-- `trait ByteTransport`, for a transport of type `T` with errors of type `E`. A method takes
-- `&mut self`, so each returns the transport as it leaves it.
pub record ByteTransport (T E : Type 0) : Type 0 where
  pub write_byte : T → ℕ → T × Result (Unit {0}) E
  pub read_byte : T → T × Result (Option ℕ) E

-- `trait ByteSource`.
pub record ByteSource (S E : Type 0) : Type 0 where
  pub source_byte : S → S × Result (Option ℕ) E

-- `trait ByteSink`.
pub record ByteSink (K E : Type 0) : Type 0 where
  pub sink_byte : K → ℕ → K × Result (Unit {0}) E
