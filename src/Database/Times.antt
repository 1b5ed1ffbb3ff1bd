-- ===== src/Database/Times.antt =====
-- What a column gives back for what was written to it. TIMESTAMPTZ keeps microseconds, and CHAR(13)
-- fills a text up with spaces.
use pony.Prelude.{Option, none, some}
use pony.Prelude.Text.{Text}
use pony.Subscription.{DateTime}

pub record Columns : Type 0 where
  pub timestamp : DateTime → DateTime
  pub refer_code : Text → Text

abbrev pub timestamps : Columns → Option DateTime → Option DateTime
timestamps cs none = none
timestamps cs (some t) = some (cs.timestamp t)
