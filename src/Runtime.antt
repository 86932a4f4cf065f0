-- ===== src/Runtime.antt =====
-- What the program takes from its environment: fresh identifiers, the clock, and the messages that
-- a gRPC stream delivers.
use rusty_dendrite.Prelude.{ℕ, String, List}
use rusty_dendrite.Prelude.Int.{ℤ, pos, wrap_i64}
use rusty_dendrite.Io.{ok, Io, ◌>>=◌, pure}

-- `Uuid::new_v4`, rendered by `to_simple`, and the milliseconds since the epoch, which are an error
-- where the clock stands before it.
pub record Runtime (S : Type 0) : Type 0 where
  pub new_v4 : S → String × S
  pub since_epoch_millis : Io S ℕ

module _ {S : Type 0} where
  unfoldable pub draw_uuid : Runtime S → Io S String
  draw_uuid rt s = (ok (rt.new_v4 s).0, (rt.new_v4 s).1)

  -- `now.duration_since(UNIX_EPOCH)?.as_millis() as i64`.
  unfoldable pub timestamp_millis : Runtime S → Io S ℤ
  timestamp_millis rt = do millis ← rt.since_epoch_millis; pure (wrap_i64 (pos millis))

-- What `message().await` returns: `Ok(Some(a))`, `Ok(None)` or `Err(e)`.
pub data Received (A : Type 0) : Type 0 where
  item : A → Received A
  end_of_stream : Received A
  failed : String → Received A

-- The messages that a stream delivers, in order; behind the last one the stream has ended.
abbrev pub Streaming : Type 0 → Type 0
Streaming A = List (Received A)
