-- ===== src/Diagnostics.antt =====
-- The diagnostic statuses of rosrust_diagnostics/src/lib.rs and status.rs. The message package
-- diagnostic_msgs is generated when the crate is built: the numbers that it gives to the levels are a
-- parameter.
use rosrust.Prelude.{ℕ, Bool, true, false, not, List, [], ◌∷◌, ◌++◌, if◌then◌else◌, Bytes, codes}
use rosrust.Prelude.Int.{ℤ, ltb_ℤ}
pub mod Summaries
pub mod Composite
pub mod Updater
pub mod Timestamp
pub mod Frequency
mod Tests

-- The numbers of type `usize`, of 64 bits, wrap around at this one.
abbrev pub usize_mod : ℕ
usize_mod = 18_446_744_073_709_551_616

pub data Level : Type 0 where
  ok warn error : Level

pub record KeyValue : Type 0 where
  pub key : Bytes
  pub value : Bytes

pub record Status : Type 0 where
  pub level : Level
  pub name : Bytes
  pub message : Bytes
  pub hardware_id : Bytes
  pub values : List KeyValue

-- `diagnostic_msgs::DiagnosticStatus`.
pub record DiagnosticStatus : Type 0 where
  pub level : ℤ
  pub name : Bytes
  pub message : Bytes
  pub hardware_id : Bytes
  pub values : List KeyValue

abbrev pub new : Level → Bytes → Status
new level message = record {
  level = level;
  name = [];
  message = message;
  hardware_id = [];
  values = [];
}

abbrev pub default_status : Status
default_status = new Level.ok []

unfoldable pub set_summary : Level → Bytes → Status → Status
set_summary level message s = record s { level = level; message = message }

unfoldable pub copy_summary : Status → Status → Status
unfolding set_summary
copy_summary other s = set_summary other.level other.message s

unfoldable pub clear_summary : Status → Status
unfolding set_summary
clear_summary s = set_summary Level.ok [] s

abbrev pub is_empty : Bytes → Bool
is_empty [] = true
is_empty (_ ∷ _) = false

unfoldable pub merge_messages : Bytes → Status → Status
merge_messages message s = if is_empty message then s else record s {
  message = if is_empty s.message then message else s.message ++ (codes "; " ++ message);
}

-- The first step of `merge_summary`: its `match` on the two levels.
unfoldable pub merge_by : Level → Level → Bytes → Status → Status
unfolding merge_messages
merge_by Level.ok Level.ok message s = merge_messages message s
merge_by Level.ok _ message s = record s { message = message }
merge_by _ Level.ok message s = s
merge_by _ _ message s = merge_messages message s

-- The second step: the levels are compared as numbers.
unfoldable pub raise : (Level → ℤ) → Level → Status → Status
raise number level s =
    if ltb_ℤ (number s.level) (number level) then record s { level = level } else s

unfoldable pub merge_summary : (Level → ℤ) → Level → Bytes → Status → Status
unfolding merge_by raise
merge_summary number level message s = raise number level (merge_by s.level level message s)

unfoldable pub merge_summary_with : (Level → ℤ) → Status → Status → Status
unfolding merge_summary
merge_summary_with number other s = merge_summary number other.level other.message s

unfoldable pub add : Bytes → Bytes → Status → Status
add key value s = record s { values = s.values ++ (record { key = key; value = value } ∷ []) }

-- `Into<DiagnosticStatus>`.
unfoldable pub into : (Level → ℤ) → Status → DiagnosticStatus
into number s = record {
  level = number s.level;
  name = s.name;
  message = s.message;
  hardware_id = s.hardware_id;
  values = s.values;
}
