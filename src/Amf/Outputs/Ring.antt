-- ===== src/Amf/Outputs/Ring.antt =====
-- A packet, the ring of packets, and the two operations on it.
use driver_uu_remote.Base.{
  ℕ, ◌+◌, ◌-◌, ◌%◌, Bool, true, false, List, Option, none, some, get_or, set, replicate, ◌==◌,
  if◌then◌else◌,
}
use driver_uu_remote.Amf.Results.{AmfResult, ok, eof, repeat}

-- `BridgeBuffer` without its reference count and properties: the packet's bytes and times.
pub record BridgeBuffer : Type 0 where
  pub bytes : List ℕ
  pub pts : ℕ
  pub duration : ℕ

abbrev pub max_outputs : ℕ
max_outputs = 8

-- The fields `outputs`, `output_head` and `output_count`; `none` is a null slot.
pub record Outputs : Type 0 where
  pub slots : List (Option BridgeBuffer)
  pub head : ℕ
  pub count : ℕ

abbrev pub no_outputs : Outputs
no_outputs = record { slots = replicate max_outputs none; head = 0; count = 0 }

-- False where the function answers -1, and then nothing is stored.
unfoldable pub component_queue_output : Outputs → BridgeBuffer → Bool × Outputs
component_queue_output o buffer = if o.count == max_outputs then (false, o) else (
  true,
  record o {
    slots = set o.slots ((o.head + o.count) % max_outputs) (some buffer);
    count = o.count + 1;
  },
)

-- The result and `*out` of `component_query_output` where `out` is not null.
unfoldable pub component_query_output : Bool → Outputs → AmfResult × Option BridgeBuffer × Outputs
component_query_output draining o =
    if o.count == 0 then (if draining then eof else repeat, none, o) else (
      ok,
      get_or o.slots o.head none,
      record o {
        slots = set o.slots o.head none;
        head = (o.head + 1) % max_outputs;
        count = o.count - 1;
      },
    )
