-- ===== src/Event.antt =====
-- What a caller of `meb_diag_record_event` (main/diagnostics.c) hands over: the component, the
-- event's name and the formatted detail. The modelled operations return the events that they record
-- in order; `Diag` is the log that keeps them.
use Prim.Native.String.{String}
use meb_commander.Base.{ℕ, List, ◌++◌, codes}
use meb_commander.Base.Decimal.{decimal}

pub record Event : Type 0 where
  pub component : List ℕ
  pub event : List ℕ
  pub detail : List ℕ

-- `meb_diag_record_event` with literals.
unfoldable pub plain : String → String → String → Event
unfolding codes
plain component event detail = record {
  component = codes component;
  event = codes event;
  detail = codes detail;
}

-- `meb_diag_record_eventf` with a format that ends in one unsigned number.
unfoldable pub numbered : String → String → String → ℕ → Event
unfolding codes decimal
numbered component event prefix n = record {
  component = codes component;
  event = codes event;
  detail = codes prefix ++ decimal n;
}
