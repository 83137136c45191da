-- ===== src/Server/Auth.antt =====
-- im_server/src/handlers/AuthHandler.cpp with sendFriendInfo of HandlerUtils.h: the state that the
-- handlers share, and what all of them use. `outbox` holds the calls of Session::deliver, oldest
-- first, with the connection's number, and `closing` those of closeAfterWrite. A payload that does
-- not parse is `none`, and its handler does nothing. An int result keeps its 32-bit pattern.

pub mod Login
pub mod Sessions
pub mod Refreshing
pub mod LoggingOut
pub mod Binding
pub mod Proofs
mod Tests
use jitong_app.Base.{
  ℕ, ◌+◌, Bool, true, false, not, ◌&&◌, ◌||◌, Option, none, some, List, [], ◌∷◌, ◌++◌, Bytes, map,
  ltb, leb, ◌==◌, if◌then◌else◌, length, is_empty,
}
use jitong_app.Transport.Messages.{LoginRs, RefreshTokenRs, TokenLoginRs, FriendInfo, ChatInfoRs}
use jitong_app.Server.Login.{Limiter}
use jitong_app.Server.Presence.{Presence, replace, is_online, get}
use jitong_app.Server.Tokens.{Results, Service, Env}
use jitong_app.Server.DeviceKeys.{DeviceKey}
use jitong_app.Server.DeviceProof.{message, verify_p256}

pub record UserRecord : Type 0 where
  pub id : ℕ
  pub icon_id : ℕ
  pub nick : Bytes
  pub feeling : Bytes

-- The fields of a StoredMessage that are read here, and the ChatInfoRq that fillChatInfo makes of it.
pub record StoredMessage (Chat : Type 0) : Type 0 where
  pub msg_id : Bytes
  pub sender_id : ℕ
  pub seq : ℕ
  pub chat : Chat

pub data Packet (Chat : Type 0) : Type 0 where
  register_rs : ℕ → Packet Chat
  login_rs : LoginRs → Packet Chat
  token_login_rs : TokenLoginRs → Packet Chat
  refresh_rs : RefreshTokenRs → Packet Chat
  logout_rs : ℕ → Packet Chat
  kicked_offline : Packet Chat
  friend_info : FriendInfo → Packet Chat
  chat_info_rq : Chat → Packet Chat
  chat_info_rs : ChatInfoRs → Packet Chat

-- What the handlers read and set of a Session; `id` is its number.
pub record Connection : Type 0 where
  pub id : ℕ
  pub user_id : ℕ
  pub auth_session_id : Bytes
  pub device_id : Bytes
  pub access_expires_at : ℕ
  pub app_session_id : Bytes
  pub peer_address : Bytes

pub record Server (Chat : Type 0) : Type 0 where
  pub limiter : Limiter
  pub tokens : Service
  pub presence : Presence
  pub keys : List DeviceKey
  pub outbox : List (ℕ × Packet Chat)
  pub closing : List ℕ
  pub marked : List Bytes

-- What one call meets outside: the database's other tables, OpenSSL, the clocks, and which
-- connections a weak pointer still reaches.
pub record Outside (Chat : Type 0) : Type 0 where
  pub digest : Bytes → Bytes
  pub begin : Results → Bytes
  pub verify : Bytes → Bytes → Bytes → Bool
  pub alive : ℕ → Bool
  pub tick : ℕ
  pub env : Env
  pub inserts_key : Bool
  pub finds_key : Bool
  pub register_user : Bytes → Bytes → Bytes → ℕ
  pub login_user : Bytes → Bytes → ℕ × ℕ
  pub get_user : ℕ → Option UserRecord
  pub get_friends : ℕ → List ℕ
  pub pull_undelivered : ℕ → List (StoredMessage Chat)

abbrev pub authenticated : Connection → Bool
authenticated c = ltb 0 c.user_id

abbrev pub bind_auth : ℕ → Bytes → Bytes → ℕ → Connection → Connection
bind_auth user sid device until c = record c {
  user_id = user;
  auth_session_id = sid;
  device_id = device;
  access_expires_at = until;
}

module _ {Chat : Type 0} where
  abbrev pub deliver : ℕ → Packet Chat → Server Chat → Server Chat
  deliver to packet s = record s { outbox = s.outbox ++ (to, packet) ∷ [] }

  abbrev pub close_after_write : ℕ → Server Chat → Server Chat
  close_after_write to s = record s { closing = s.closing ++ to ∷ [] }

  -- The key is bound into the message where `bind` says so.
  unfoldable pub verify_device :
      Outside Chat → Connection → Bytes → Bytes → Bytes → Bytes → Bytes → Bool → Bool
  verify_device o c operation device credential key signature bind =
      verify_p256 o.verify key
        (message operation c.app_session_id device credential (if bind then key else [])) signature

  abbrev send_user : ℕ → ℕ → Option UserRecord → Server Chat → Server Chat
  send_user to status none s = s
  send_user to status (some u) s =
      deliver to
        (friend_info (record {
          userid = u.id;
          iconid = u.icon_id;
          status = status;
          nick = u.nick;
          feeling = u.feeling;
        }))
        s

  unfoldable pub send_friend_info : Outside Chat → ℕ → ℕ → ℕ → Server Chat → Server Chat
  send_friend_info o to user status s = send_user to status (o.get_user user) s

  abbrev send_to_friend : Outside Chat → ℕ → Option ℕ → Server Chat → Server Chat
  send_to_friend o user none s = s
  send_to_friend o user (some to) s = send_friend_info o to user 0 s

  -- The loop over the friends: 0 is STATUS_ONLINE, 1 is STATUS_OFFLINE.
  unfoldable pub tell_friends : Outside Chat → ℕ → ℕ → List ℕ → Server Chat → Server Chat
  unfolding send_friend_info
  tell_friends o self user [] s = s
  tell_friends o self user (f ∷ fs) s =
      let s1 = send_friend_info o self f (if is_online o.alive f s.presence then 0 else 1) s in
      tell_friends o self user fs (send_to_friend o user (get o.alive f s.presence) s1)

  abbrev receipt : ℕ → StoredMessage Chat → Option ℕ → Server Chat → Server Chat
  receipt user m none s = s
  receipt user m (some to) s =
      deliver to
        (chat_info_rs
          (record { myid = user; friid = m.sender_id; result = 0; msg_id = m.msg_id; seq = m.seq }))
        s

  -- The loop over the messages that were kept for the user.
  unfoldable pub hand_over :
      Outside Chat → ℕ → ℕ → List (StoredMessage Chat) → Server Chat → Server Chat
  hand_over o self user [] s = s
  hand_over o self user (m ∷ ms) s =
      hand_over o self user ms
        (receipt user m (get o.alive m.sender_id s.presence) (deliver self (chat_info_rq m.chat) s))

  abbrev kick_old : ℕ → Option ℕ → Server Chat → Server Chat
  kick_old self none s = s
  kick_old self (some old) s =
      if old == self then s else close_after_write old (deliver old kicked_offline s)

  unfoldable pub activate_session : Outside Chat → ℕ → ℕ → Server Chat → Server Chat
  unfolding send_friend_info tell_friends hand_over
  activate_session o self user s =
      let r = replace o.alive user self o.env.now s.presence in
      let s1 = kick_old self r.1 (record s { presence = r.0 }) in
      let s2 = tell_friends o self user (o.get_friends user) (send_friend_info o self user 0 s1) in
      let ms = o.pull_undelivered user in
      let s3 = hand_over o self user ms s2 in
      record s3 { marked = s3.marked ++ map (λ (m : StoredMessage Chat). m.msg_id) ms }
