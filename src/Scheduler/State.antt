-- ===== src/Scheduler/State.antt =====
-- src/XrdClCurl/XrdClCurlTagScheduler.hh: the scheduler's data, and the parts of a CurlOperation
-- (src/XrdClCurl/XrdClCurlOps.hh) that it touches. Times are steady-clock ticks.
use xrdcl_pelican.Prelude.{
  ℕ, ◌+◌, ◌*◌, ◌/◌, ◌%◌, ◌^◌, max, Bool, false, ◌||◌, Option, none, some, List, [],
}
use xrdcl_pelican.Prelude.Tests.{leb, ◌==◌, if◌then◌else◌}
use xrdcl_pelican.Prelude.Bytes.{Bytes}
use xrdcl_pelican.Prelude.Int.{ℤ, pos, negsuc, to_int32}
use xrdcl_pelican.Prelude.Assoc.{lookup}

-- The IEEE doubles that weigh the tags, with the operations of the source; no law is assumed.
pub record Doubles (F : Type 0) : Type 0 where
  pub zero_f : F
  pub one_f : F
  pub noise : F
  pub add : F → F → F
  pub sub : F → F → F
  pub mul : F → F → F
  pub quot : F → F → F
  pub negate : F → F
  pub exp : F → F
  pub of_int : ℕ → F
  pub seconds : ℕ → F
  pub le_f : F → F → Bool
  pub lt_f : F → F → Bool

pub record Config : Type 0 where
  pub per_tag_starving_percent : ℤ
  pub per_tag_active_percent : ℤ
  pub pending_buffer_size : ℤ
  pub per_tag_pending_size : ℤ
  pub ema_window : ℤ

-- The hooks are the closures that `Admit` installs: a hook is the tag that it captured, and
-- `none` an empty std::function. `first_byte` is the flag that the two closures share.
pub record Operation : Type 0 where
  pub id : ℕ
  pub expiry : ℕ
  pub on_first_byte_hook : Option Bytes
  pub on_done_hook : Option Bytes
  pub first_byte : Bool
  pub done_hook_fired : Bool

pub record TagState : Type 0 where
  pub pending : List Operation
  pub active : ℕ
  pub starving : ℕ
  pub admits : ℕ
  pub rejects : ℕ

-- The random generator, the condition variable, the logger and the liveness handle have no field:
-- a draw is an argument of the operation that makes it, and each operation is one critical section.
pub record TagScheduler (F : Type 0) : Type 0 where
  pub worker_count : ℕ
  pub cfg : Config
  pub starving_cap : ℤ
  pub active_cap : ℤ
  pub tags : List (Bytes × TagState)
  pub total_pending : ℕ
  pub is_shutdown : Bool
  pub last_tick : ℕ
  pub admits : ℕ
  pub rejects : ℕ
  pub rejects_global : ℕ
  pub rejects_per_tag : ℕ
  pub ema_snapshot : List (Bytes × F)

-- A value-initialised TagState, as `m_tags[tag]` creates it.
abbrev pub fresh_state : TagState
fresh_state = record { pending = []; active = 0; starving = 0; admits = 0; rejects = 0 }

-- What `m_tags[tag]` refers to.
unfoldable pub tag_state : Bytes → List (Bytes × TagState) → TagState
tag_state tag m = elim (lookup tag m) [ none ↦ fresh_state | some st ↦ st ]

-- `++` on a std::uint64_t.
abbrev pub increment64 : ℕ → ℕ
increment64 n = (n + 1) % 2 ^ 64

abbrev pub at_least_one : ℤ → ℤ
at_least_one (pos z) = pos (max z 1)
at_least_one (negsuc z) = pos 1

-- Unsigned 32-bit arithmetic, and a cast to int at the end.
unfoldable pub percent_to_cap : ℕ → ℤ → ℤ
percent_to_cap workers (negsuc p) = to_int32 workers
percent_to_cap workers (pos p) =
    if p == 0 || leb 100 p
    then to_int32 workers
    else at_least_one (to_int32 (((workers * p) % 2 ^ 32 + 99) % 2 ^ 32 / 100))

-- The constructor.
unfoldable pub make : {F : Type 0} → ℕ → Config → ℕ → TagScheduler F
make workers cfg now = record {
  worker_count = max workers 1;
  cfg = cfg;
  starving_cap = percent_to_cap (max workers 1) cfg.per_tag_starving_percent;
  active_cap = percent_to_cap (max workers 1) cfg.per_tag_active_percent;
  tags = [];
  total_pending = 0;
  is_shutdown = false;
  last_tick = now;
  admits = 0;
  rejects = 0;
  rejects_global = 0;
  rejects_per_tag = 0;
  ema_snapshot = [];
}
