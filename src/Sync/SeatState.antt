-- ===== src/Sync/SeatState.antt =====
-- synchronization/seat_state.py
use distributed_tickit_syste.Common.{ℕ, String, ◌≡◌, refl, Option, none, some}

pub data SeatStateType : Type 0 where
  available locked reserved failed : SeatStateType

-- `last_updated` is an ISO time stamp: a text that is only stored.
pub record SeatState : Type 0 where
  pub seat_id : ℕ
  pub state : SeatStateType
  pub last_updated : String
  pub owner : String
  pub version : ℕ

-- The dictionary form: the value of each of the five keys, if it is there.
pub record SeatData : Type 0 where
  pub seat_id : Option ℕ
  pub state : Option SeatStateType
  pub last_updated : Option String
  pub owner : Option String
  pub version : Option ℕ

unfoldable pub to_dict : SeatState → SeatData
to_dict s = record {
  seat_id = some s.seat_id;
  state = some s.state;
  last_updated = some s.last_updated;
  owner = some s.owner;
  version = some s.version;
}

-- `data.get(key, default)`
abbrev pub get {ℓ} : {A : Type ℓ} → Option A → A → A
get none default = default
get (some a) default = a

-- `now` is the reading `datetime.utcnow().isoformat()`.
unfoldable pub from_dict : String → SeatData → SeatState
from_dict now d = record {
  seat_id = get d.seat_id 0;
  state = get d.state available;
  last_updated = get d.last_updated now;
  owner = get d.owner "";
  version = get d.version 0;
}

-- Reading back what was written gives the same seat, whatever the time.
pub from_dict-to_dict : (now : String) (s : SeatState) → from_dict now (to_dict s) ≡ s
unfolding from_dict to_dict
from_dict-to_dict now s = refl
