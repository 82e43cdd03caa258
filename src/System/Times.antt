-- ===== src/System/Times.antt =====
-- The points in time that the program reads from texts. std::get_time reads the front of a text by a
-- format, or fails.
use phud.Prelude.{Option, none, some, Bytes}
use phud.Prelude.Result.{Result, ok, err, time_exception}

pub record Times : Type 1 where
  pub Time : Type 0
  pub get_time : Bytes → Bytes → Option Time

-- Time::Time. The text is read by its data(), so up to the end of the line that it is a part of: the
-- argument is the whole of it.
unfoldable pub new_time : (t : Times) → Bytes → Bytes → Result t.Time
new_time t text format = elim (t.get_time text format) [
  | none ↦ err time_exception
  | some time ↦ ok time
]
