-- ===== src/Hook/Flags/Seen.antt =====
-- kit_server/hook.cpp: which flags the program and the system see.
use kit_server.Common.{◌≡◌, Bool}
use kit_server.Common.Ints.{ℤ}
use kit_server.Hook.Flags.{put_nonblock}

-- Two words are the same but for O_NONBLOCK.
abbrev pub AgreeElsewhere : ℤ → ℤ → Type 0
AgreeElsewhere z y = (b : Bool) → put_nonblock b z ≡ put_nonblock b y
