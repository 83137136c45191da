-- ===== src/Server/Router.antt =====
-- im_server/src/routing/ProtocolRouter.h, ProtocolRouter.cpp, Dispatcher.h and Dispatcher.cpp. `W` is
-- the state of the server that the handlers work on; a handler returns with whether it threw. The log
-- lines are not modelled.
pub mod Routes
use jitong_app.Base.{
  ℕ, ◌+◌, Bool, true, false, Option, none, some, List, [], ◌∷◌, Bytes, if◌then◌else◌,
}
use jitong_app.Base.Dict.{find, put, nat_eq}

-- A session may be the null pointer.
abbrev pub Handler : Type 0 → Type 0
Handler W = Option ℕ → Bytes → W → W × Bool

abbrev pub Routes : Type 0 → Type 0
Routes W = List (ℕ × Handler W)

pub data RouteError : Type 0 where
  empty_handler : RouteError
  duplicate_route : ℕ → RouteError

module _ {W : Type 0} where
  -- `none` is the empty std::function; the result says what was thrown.
  unfoldable pub add : ℕ → Option (Handler W) → Routes W → Routes W × Option RouteError
  add type none routes = (routes, some empty_handler)
  add type (some handler) routes = elim (find type routes) [
    | none ↦ (put type handler routes, none)
    | some h ↦ (routes, some (duplicate_route type))
  ]

  unfoldable pub contains : ℕ → Routes W → Bool
  contains type routes = elim (find type routes) [ none ↦ false | some h ↦ true ]

  -- The end of the try block: an exception closes the session, if there is one.
  abbrev pub after_handler : (ℕ → W → W) → Option ℕ → W × Bool → W
  after_handler close none r = r.0
  after_handler close (some s) r = if r.1 then close s r.0 else r.0

  unfoldable pub dispatch : (ℕ → W → W) → Option ℕ → ℕ → Bytes → Routes W → W → W
  dispatch close session type payload routes w = elim (find type routes) [
    | none ↦ w
    | some handler ↦ after_handler close session (handler session payload w)
  ]

-- The handler objects that the dispatcher calls, one field for each method.
pub record Handlers (W : Type 0) : Type 0 where
  pub on_register : Handler W
  pub on_login : Handler W
  pub on_token_login : Handler W
  pub on_token_refresh : Handler W
  pub on_logout : Handler W
  pub on_reply : Handler W
  pub on_cancel : Handler W
  pub on_chat : Handler W
  pub on_add_friend : Handler W
  pub on_add_friend_reply : Handler W
  pub on_friend_request_list : Handler W
  pub on_delete_friend : Handler W
  pub on_conversations : Handler W
  pub on_messages : Handler W
  pub on_offline : Handler W
  pub on_heartbeat : Handler W

-- DEF_BASE of Protocol.h, from which the protocol numbers count.
abbrev pub base : ℕ
base = 1000

module _ {W : Type 0} where
  -- The calls of `add` in Dispatcher's constructor, in its order.
  unfoldable pub route_list : Handlers W → List (ℕ × Handler W)
  route_list h =
      (base + 0, h.on_register)
      ∷ (base + 2, h.on_login)
      ∷ (base + 23, h.on_token_login)
      ∷ (base + 25, h.on_token_refresh)
      ∷ (base + 27, h.on_logout)
      ∷ (base + 29, h.on_reply)
      ∷ (base + 31, h.on_cancel)
      ∷ (base + 5, h.on_chat)
      ∷ (base + 7, h.on_add_friend)
      ∷ (base + 8, h.on_add_friend_reply)
      ∷ (base + 34, h.on_friend_request_list)
      ∷ (base + 32, h.on_delete_friend)
      ∷ (base + 13, h.on_conversations)
      ∷ (base + 15, h.on_messages)
      ∷ (base + 9, h.on_offline)
      ∷ (base + 10, h.on_heartbeat)
      ∷ []

  -- One `add` after the other; the first exception ends the constructor.
  unfoldable pub add_all : List (ℕ × Handler W) → Routes W → Routes W × Option RouteError
  add_all [] routes = (routes, none)
  add_all ((type, handler) ∷ rest) routes =
      let r = add type (some handler) routes in elim r.1 [ none ↦ add_all rest r.0 | some e ↦ r ]

  unfoldable pub dispatcher : Handlers W → Routes W × Option RouteError
  unfolding add_all route_list
  dispatcher h = add_all (route_list h) []

  unfoldable pub has_handler : ℕ → Routes W → Bool
  unfolding contains
  has_handler type routes = contains type routes

  unfoldable pub handle : (ℕ → W → W) → Option ℕ → ℕ → Bytes → Routes W → W → W
  unfolding dispatch
  handle close session type payload routes w = dispatch close session type payload routes w
