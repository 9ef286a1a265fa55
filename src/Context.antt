-- ===== src/Context.antt =====
-- Go's context.Context as far as the code derives one from another: whether the caller has cancelled
-- it, and the time that is left, in nanoseconds.
use goga.Prelude.{ℕ, Bool, false, Option, none, some, ltb, if◌then◌else◌}

pub record Context : Type 0 where
  pub cancelled : Bool
  pub left : Option ℕ

-- context.WithTimeout keeps an earlier deadline.
unfoldable pub with_timeout : ℕ → Context → Context
with_timeout d ctx = record ctx {
  left = elim ctx.left [ none ↦ some d | some l ↦ some (if ltb l d then l else d) ];
}

-- context.WithoutCancel drops the cancellation and the deadline.
unfoldable pub without_cancel : Context → Context
without_cancel ctx = record { cancelled = false; left = none }

-- context.Background()
abbrev pub background : Context
background = record { cancelled = false; left = none }
