-- ===== src/Process/Writer.antt =====
-- backend/internal/platform/process/bounded_writer.go. Every method holds the writer's lock, so
-- it is one step. Sizes are below 2^63, so the int64 sums of the source do not wrap.
use codera.Base.{
  ℕ, ◌+◌, ◌-◌, Bool, true, false, List, [], ◌∷◌, ◌++◌, Bytes, length, take, ltb, if◌then◌else◌,
}

-- `canceled` says that cancelFunc was called with ErrOutputLimitExceeded.
pub record BoundedWriter : Type 0 where
  pub buf : Bytes
  pub max_size : ℕ
  pub current : ℕ
  pub has_cancel : Bool
  pub canceled : Bool
  pub exceeded : Bool

abbrev pub new_bounded_writer : ℕ → Bool → BoundedWriter
new_bounded_writer max_size has_cancel = record {
  buf = [];
  max_size = max_size;
  current = 0;
  has_cancel = has_cancel;
  canceled = false;
  exceeded = false;
}

-- The writer after Write, and the count that it returns; the error is always nil.
unfoldable pub write : Bytes → BoundedWriter → BoundedWriter × ℕ
write p w =
    if w.exceeded
    then (w, length p)
    else if ltb w.max_size (w.current + length p)
    then (let allowed = w.max_size - w.current in
        (
          record w {
            buf = if ltb 0 allowed then w.buf ++ take allowed p else w.buf;
            current = if ltb 0 allowed then w.current + allowed else w.current;
            canceled = if w.has_cancel then true else w.canceled;
            exceeded = true;
          },
          length p,
        ))
    else (record w { buf = w.buf ++ p; current = w.current + length p }, length p)

-- The writer after the writes of a process, and the counts returned.
unfoldable pub write_all : List Bytes → BoundedWriter → BoundedWriter × List ℕ
write_all [] w = (w, [])
write_all (p ∷ ps) w = let (w', n) = write p w in let (w'', ns) = write_all ps w' in (w'', n ∷ ns)
