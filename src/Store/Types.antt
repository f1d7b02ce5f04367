-- ===== src/Store/Types.antt =====
-- The types of internal/store/store.go and pagination.go, and the rows of the tables that the
-- migrations make. A UUID is its 128-bit big-endian number, and a time a number of moments since an
-- epoch.
use users.Prelude.{ℕ, Option, List, Bytes, codes}

abbrev pub UserId : Type 0
UserId = ℕ

abbrev pub Time : Type 0
Time = ℕ

pub record EntityMeta : Type 0 where
  pub id : UserId
  pub created_at : Time
  pub updated_at : Time

pub record User : Type 0 where
  pub meta : EntityMeta
  pub oidc_subject : Bytes
  pub name : Bytes
  pub email : Bytes
  pub nickname : Bytes
  pub username : Bytes
  pub photo_url : Bytes

pub record UserInput : Type 0 where
  pub oidc_subject : Bytes
  pub name : Bytes
  pub email : Bytes
  pub nickname : Bytes
  pub username : Bytes
  pub photo_url : Bytes

pub record UserUpdate : Type 0 where
  pub name : Option Bytes
  pub email : Option Bytes
  pub nickname : Option Bytes
  pub username : Option Bytes
  pub photo_url : Option Bytes

pub record PageCursor : Type 0 where
  pub after_id : UserId

pub record UserListResult : Type 0 where
  pub users : List User
  pub next_cursor : Option PageCursor

pub record UserDirectoryEntry : Type 0 where
  pub identity_id : UserId
  pub username : Bytes
  pub name : Bytes
  pub photo_url : Bytes

pub record ApiToken : Type 0 where
  pub id : UserId
  pub identity_id : UserId
  pub name : Bytes
  pub token_hash : Bytes
  pub token_prefix : Bytes
  pub expires_at : Option Time
  pub created_at : Time
  pub last_used_at : Option Time

-- `type DeviceStatus string`, `type DeviceConnectivity string` and their constants
abbrev pub DeviceStatus : Type 0
DeviceStatus = Bytes

abbrev pub DeviceConnectivity : Type 0
DeviceConnectivity = Bytes

abbrev pub device_status_pending : DeviceStatus
device_status_pending = codes "pending"

abbrev pub device_status_enrolled : DeviceStatus
device_status_enrolled = codes "enrolled"

abbrev pub device_connectivity_online : DeviceConnectivity
device_connectivity_online = codes "online"

abbrev pub device_connectivity_offline : DeviceConnectivity
device_connectivity_offline = codes "offline"

pub record CreateApiTokenInput : Type 0 where
  pub identity_id : UserId
  pub name : Bytes
  pub token_hash : Bytes
  pub token_prefix : Bytes
  pub expires_at : Option Time

pub record Device : Type 0 where
  pub id : UserId
  pub identity_id : UserId
  pub name : Bytes
  pub open_ziti_identity_id : Bytes
  pub enrollment_jwt : Option Bytes
  pub status : DeviceStatus
  pub connectivity : DeviceConnectivity
  pub enrolled_at : Option Time
  pub last_seen_at : Option Time
  pub created_at : Time

pub record UpdateDeviceLivenessInput : Type 0 where
  pub id : UserId
  pub status : DeviceStatus
  pub connectivity : DeviceConnectivity
  pub enrolled_at : Option Time
  pub last_seen_at : Option Time

pub record CreateDeviceInput : Type 0 where
  pub identity_id : UserId
  pub name : Bytes
  pub open_ziti_identity_id : Bytes
  pub enrollment_jwt : Bytes

pub record DeviceListResult : Type 0 where
  pub devices : List Device
  pub next_cursor : Option PageCursor

-- A row of `users`; `username` may be NULL.
pub record UserRow : Type 0 where
  pub identity_id : UserId
  pub oidc_subject : Bytes
  pub name : Bytes
  pub email : Bytes
  pub nickname : Bytes
  pub username : Option Bytes
  pub photo_url : Bytes
  pub created_at : Time
  pub updated_at : Time

-- A row of `user_api_tokens`.
pub record ApiTokenRow : Type 0 where
  pub id : UserId
  pub identity_id : UserId
  pub name : Bytes
  pub token_hash : Bytes
  pub token_prefix : Bytes
  pub expires_at : Option Time
  pub created_at : Time
  pub last_used_at : Option Time

-- A row of `user_devices`; the texts of `status` and `connectivity` have no constraint.
pub record DeviceRow : Type 0 where
  pub id : UserId
  pub identity_id : UserId
  pub name : Bytes
  pub open_ziti_identity_id : Bytes
  pub enrollment_jwt : Option Bytes
  pub status : Bytes
  pub connectivity : Bytes
  pub enrolled_at : Option Time
  pub last_seen_at : Option Time
  pub created_at : Time

pub record Database : Type 0 where
  pub users : List UserRow
  pub api_tokens : List ApiTokenRow
  pub devices : List DeviceRow
