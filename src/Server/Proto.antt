-- ===== src/Server/Proto.antt =====
-- internal/server/converter.go: the messages that the handlers return.
pub mod Total
use users.Prelude.{ℕ, Option, none, some, Bytes, bytes_eq, if◌then◌else◌}
use users.World.{Uuids}
use users.Store.Types.{
  Time, EntityMeta, User, ApiToken, Device, DeviceStatus, DeviceConnectivity, UserDirectoryEntry,
  device_status_pending, device_status_enrolled, device_connectivity_online,
  device_connectivity_offline,
}

pub record ProtoMeta : Type 0 where
  pub id : Bytes
  pub created_at : Time
  pub updated_at : Time

pub record ProtoUser : Type 0 where
  pub meta : ProtoMeta
  pub oidc_subject : Bytes
  pub name : Bytes
  pub email : Bytes
  pub nickname : Bytes
  pub username : Bytes
  pub photo_url : Bytes

pub record ProtoApiToken : Type 0 where
  pub id : Bytes
  pub identity_id : Bytes
  pub name : Bytes
  pub token_prefix : Bytes
  pub expires_at : Option Time
  pub created_at : Time
  pub last_used_at : Option Time

pub data ProtoStatus : Type 0 where
  status_pending status_enrolled : ProtoStatus

pub data ProtoConnectivity : Type 0 where
  connectivity_online connectivity_offline : ProtoConnectivity

pub record ProtoDevice : Type 0 where
  pub meta : ProtoMeta
  pub user_identity_id : Bytes
  pub name : Bytes
  pub open_ziti_identity_id : Bytes
  pub status : ProtoStatus
  pub connectivity : ProtoConnectivity
  pub enrolled_at : Option Time
  pub last_seen_at : Option Time

to_proto_entity_meta : Uuids → EntityMeta → ProtoMeta
to_proto_entity_meta uuids meta = record {
  id = uuids.to_string meta.id;
  created_at = meta.created_at;
  updated_at = meta.updated_at;
}

unfoldable pub to_proto_user : Uuids → User → ProtoUser
unfolding to_proto_entity_meta
to_proto_user uuids user = record {
  meta = to_proto_entity_meta uuids user.meta;
  oidc_subject = user.oidc_subject;
  name = user.name;
  email = user.email;
  nickname = user.nickname;
  username = user.username;
  photo_url = user.photo_url;
}

unfoldable pub to_proto_api_token : Uuids → ApiToken → ProtoApiToken
to_proto_api_token uuids token = record {
  id = uuids.to_string token.id;
  identity_id = uuids.to_string token.identity_id;
  name = token.name;
  token_prefix = token.token_prefix;
  expires_at = token.expires_at;
  created_at = token.created_at;
  last_used_at = token.last_used_at;
}

-- `none` stands for the panic of the default case.
to_proto_device_status : DeviceStatus → Option ProtoStatus
unfolding bytes_eq
to_proto_device_status status =
    if bytes_eq status device_status_pending
    then some status_pending
    else if bytes_eq status device_status_enrolled
    then some status_enrolled
    else none

to_proto_device_connectivity : DeviceConnectivity → Option ProtoConnectivity
unfolding bytes_eq
to_proto_device_connectivity connectivity =
    if bytes_eq connectivity device_connectivity_online
    then some connectivity_online
    else if bytes_eq connectivity device_connectivity_offline
    then some connectivity_offline
    else none

proto_device : Uuids → Device → Option ProtoStatus → Option ProtoConnectivity → Option ProtoDevice
proto_device uuids device (some status) (some connectivity) = some (record {
  meta = record {
    id = uuids.to_string device.id;
    created_at = device.created_at;
    updated_at = device.created_at;
  };
  user_identity_id = uuids.to_string device.identity_id;
  name = device.name;
  open_ziti_identity_id = device.open_ziti_identity_id;
  status = status;
  connectivity = connectivity;
  enrolled_at = device.enrolled_at;
  last_seen_at = device.last_seen_at;
})
proto_device uuids device _ _ = none

unfoldable pub to_proto_device : Uuids → Device → Option ProtoDevice
unfolding proto_device to_proto_device_status to_proto_device_connectivity
to_proto_device uuids device =
    proto_device uuids device (to_proto_device_status device.status)
      (to_proto_device_connectivity device.connectivity)
