-- ===== src/Rtps/SubmessageKind.antt =====
-- enum SubmessageKind of rtps/Message.h: the kinds that the code tests for.
use mini_dds.Prelude.{ℕ}

abbrev pub acknack : ℕ
acknack = 0x06

abbrev pub heartbeat : ℕ
heartbeat = 0x07

abbrev pub gap : ℕ
gap = 0x08

abbrev pub user_data : ℕ
user_data = 0x15
