-- ===== src/Transport/Messages.antt =====
-- The messages of protocol/im.proto that the authentication handlers read and write. How protobuf
-- writes them as bytes is not modelled.
use jitong_app.Base.{ℕ, Bool, Bytes}

pub record RegisterRq : Type 0 where
  pub nick : Bytes
  pub tel : Bytes
  pub pass : Bytes

pub record LoginRq : Type 0 where
  pub tel : Bytes
  pub pass : Bytes
  pub device_id : Bytes
  pub device_name : Bytes
  pub client_version : Bytes
  pub device_public_key : Bytes
  pub device_signature : Bytes

pub record LoginRs : Type 0 where
  pub userid : ℕ
  pub result : ℕ
  pub access_token : Bytes
  pub refresh_token : Bytes
  pub access_token_expire_at : ℕ
  pub refresh_token_expire_at : ℕ
  pub session_id : Bytes

pub record RefreshTokenRq : Type 0 where
  pub refresh_token : Bytes
  pub device_id : Bytes
  pub request_id : Bytes
  pub device_signature : Bytes

pub record RefreshTokenRs : Type 0 where
  pub result : ℕ
  pub access_token : Bytes
  pub refresh_token : Bytes
  pub access_token_expire_at : ℕ
  pub refresh_token_expire_at : ℕ
  pub session_id : Bytes

pub record TokenLoginRq : Type 0 where
  pub access_token : Bytes
  pub device_id : Bytes
  pub request_id : Bytes
  pub device_signature : Bytes

pub record TokenLoginRs : Type 0 where
  pub result : ℕ
  pub userid : ℕ
  pub access_token_expire_at : ℕ

pub record LogoutRq : Type 0 where
  pub refresh_token : Bytes
  pub device_id : Bytes
  pub logout_all_devices : Bool
  pub device_signature : Bytes

pub record FriendInfo : Type 0 where
  pub userid : ℕ
  pub iconid : ℕ
  pub status : ℕ
  pub nick : Bytes
  pub feeling : Bytes

pub record ChatInfoRs : Type 0 where
  pub myid : ℕ
  pub friid : ℕ
  pub result : ℕ
  pub msg_id : Bytes
  pub seq : ℕ
