-- ===== src/Server/DeviceKeys.antt =====
-- im_server/src/db/Database.cpp, bindDevicePublicKey and getDevicePublicKey, on the table device_keys.
-- The flags say whether sqlite runs the statements without an error of its own.
use jitong_app.Base.{
  ℕ, Bool, false, not, ◌&&◌, ◌||◌, Option, none, some, List, [], ◌∷◌, ◌++◌, Bytes, bytes_eq,
  is_empty, ◌==◌, if◌then◌else◌,
}
use jitong_app.Server.AuthTable.{c_str}

pub record DeviceKey : Type 0 where
  pub user_id : ℕ
  pub device_id : Bytes
  pub public_key : Bytes

unfoldable pub find_key : ℕ → Bytes → List DeviceKey → Option Bytes
find_key user device [] = none
find_key user device (k ∷ ks) =
    if k.user_id == user && bytes_eq k.device_id device
    then some k.public_key
    else find_key user device ks

-- INSERT OR IGNORE under the primary key (user_id, device_id).
abbrev pub insert_or_ignore : DeviceKey → Option Bytes → List DeviceKey → List DeviceKey
insert_or_ignore k none keys = keys ++ k ∷ []
insert_or_ignore k (some old) keys = keys

abbrev pub is_key : Bytes → Option Bytes → Bool
is_key key none = false
is_key key (some stored) = bytes_eq stored key

unfoldable pub bind_device_public_key :
    Bool → Bool → ℕ → Bytes → Bytes → List DeviceKey → List DeviceKey × Bool
bind_device_public_key inserts finds user device key keys =
    let new : DeviceKey = record { user_id = user; device_id = c_str device; public_key = key } in
    let after = insert_or_ignore new (find_key user (c_str device) keys) keys in
    if user == 0 || (is_empty device || (is_empty key || not inserts))
    then (keys, false)
    else (after, finds && is_key key (find_key user (c_str device) after))

abbrev pub usable : Option Bytes → Option Bytes
usable none = none
usable (some key) = if is_empty key then none else some key

unfoldable pub get_device_public_key : Bool → ℕ → Bytes → List DeviceKey → Option Bytes
get_device_public_key finds user device keys =
    if finds then usable (find_key user (c_str device) keys) else none
