-- ===== src/Action/Goal.antt =====
-- rosrust_actionlib/src/goal_status.rs and the messages of lib.rs. The message package
-- actionlib_msgs is generated when the crate is built: the numbers that it gives to the goal
-- states are a parameter, and differ from one another, as the discriminants of an enum must.
use rosrust.Prelude.{
  ℕ, ◌≡◌, ◌≢◌, ◌↔◌, refl, sym, ap, ◌∙◌, Option, none, some, List, [], ◌==◌, if◌then◌else◌, arith,
  Bytes,
}
use rosrust.Time.{Time}

pub data GoalState : Type 0 where
  pending active preempted succeeded aborted rejected preempting recalling recalled lost : GoalState

pub GoalState-discrete : Discrete GoalState
GoalState-discrete = hlevel

pub record GoalId : Type 0 where
  pub id : Bytes
  pub stamp : Time

pub record GoalStatus : Type 0 where
  pub goal_id : GoalId
  pub state : GoalState
  pub text : Bytes

-- `actionlib_msgs::GoalStatus`.
pub record GoalStatusRaw : Type 0 where
  pub goal_id : GoalId
  pub status : ℕ
  pub text : Bytes

pub record Header : Type 0 where
  pub seq : ℕ
  pub stamp : Time
  pub frame_id : Bytes

pub record GoalStatusArray : Type 0 where
  pub header : Header
  pub status_list : List GoalStatusRaw

pub record Goal (A : Type 0) : Type 0 where
  pub header : Header
  pub id : GoalId
  pub body : A

pub record Response (A : Type 0) : Type 0 where
  pub header : Header
  pub status : GoalStatus
  pub body : A

abbrev pub default_time : Time
default_time = record { sec = 0; nsec = 0 }

abbrev pub default_header : Header
default_header = record { seq = 0; stamp = default_time; frame_id = [] }

abbrev pub default_status : GoalStatus
default_status = record {
  goal_id = record { id = []; stamp = default_time };
  state = pending;
  text = [];
}

-- The constants of `actionlib_msgs::GoalStatus`.
pub record StatusCodes : Type 0 where
  pub code : GoalState → ℕ
  pub injective : (a b : GoalState) → code a ≡ code b → a ≡ b

module _ (k : StatusCodes) where
  -- `TryFrom<u8> for GoalState`; `none` is the error, which carries the number.
  unfoldable pub try_from : ℕ → Option GoalState
  try_from v =
      if v == k.code pending
      then some pending
      else if v == k.code active
      then some active
      else if v == k.code preempted
      then some preempted
      else if v == k.code succeeded
      then some succeeded
      else if v == k.code aborted
      then some aborted
      else if v == k.code rejected
      then some rejected
      else if v == k.code preempting
      then some preempting
      else if v == k.code recalling
      then some recalling
      else if v == k.code recalled
      then some recalled
      else if v == k.code lost
      then some lost
      else none

  unwrap_or_lost : Option GoalState → GoalState
  unwrap_or_lost (some s) = s
  unwrap_or_lost none = lost

  -- `From<GoalStatus> for GoalStatusRaw` and back.
  unfoldable pub to_raw : GoalStatus → GoalStatusRaw
  to_raw s = record { goal_id = s.goal_id; status = k.code s.state; text = s.text }

  unfoldable pub from_raw : GoalStatusRaw → GoalStatus
  unfolding unwrap_or_lost
  from_raw s = record {
    goal_id = s.goal_id;
    state = unwrap_or_lost (try_from s.status);
    text = s.text;
  }

  try_from_sound : (v : ℕ) (s : GoalState) → try_from v ≡ some s → v ≡ k.code s
  unfolding try_from
  try_from_sound v pending h = ground arith
  try_from_sound v _ h = ground arith

  try_from-ne-none : (s : GoalState) → try_from (k.code s) ≢ none
  unfolding try_from
  try_from-ne-none pending = ground arith
  try_from-ne-none _ = ground arith

  -- A number is read as a state exactly when it is the state's number.
  pub try_from_iff : (v : ℕ) (s : GoalState) → (try_from v ≡ some s) ↔ (v ≡ k.code s)
  try_from_iff v s = (try_from_sound v s, λ e. rw e (found (try_from (k.code s)) refl))
    where
      found : (o : Option GoalState) → try_from (k.code s) ≡ o → try_from (k.code s) ≡ some s
      found none e = absurd (try_from-ne-none s e)
      found (some t) e = e ∙ ap some (k.injective t s (sym (try_from_sound _ t e)))

  pub from_raw-to_raw : (s : GoalStatus) → from_raw (to_raw s) ≡ s
  unfolding from_raw to_raw
  from_raw-to_raw s = rw ((try_from_iff (k.code s.state) s.state).1 refl)

  pub from_raw-reads :
      (raw : GoalStatusRaw) (g : GoalState)
      → try_from raw.status ≡ some g
      → from_raw raw ≡ record { goal_id = raw.goal_id; state = g; text = raw.text }
  unfolding from_raw
  from_raw-reads raw g e = rw e
