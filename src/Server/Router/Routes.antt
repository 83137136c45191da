-- ===== src/Server/Router/Routes.antt =====
-- ProtocolRouter and Dispatcher: every request type has its handler, and only its own.
use jitong_app.Base.{
  ℕ, ◌≡◌, ◌∙◌, ap, refl, Bool, true, false, Option, none, some, List, [], ◌∷◌, Bytes, arith,
}
use jitong_app.Base.Dict.{find, put, find-put, HasUniqueKeys, nat_eq}
use jitong_app.Server.Router.{
  Handler, Routes, RouteError, duplicate_route, add, contains, after_handler, dispatch, Handlers,
  route_list, add_all, dispatcher, has_handler, handle,
}

module _ {W : Type 0} where
  -- No type of the list is among the routes.
  AreNew : List (ℕ × Handler W) → Routes W → Type 0
  AreNew [] routes = Unit
  AreNew ((type, handler) ∷ rest) routes = (find type routes ≡ none) × AreNew rest routes

  AreNew-put :
      (type : ℕ) (handler : Handler W) (rest : List (ℕ × Handler W)) (routes : Routes W)
      → find type rest ≡ none
      → AreNew rest routes
      → AreNew rest (put type handler routes)
  unfolding AreNew find
  AreNew-put type handler [] routes f a = tt
  AreNew-put type handler ((t, h) ∷ rest) routes f a = (
    ground (arith, f, a.0, find-put type t handler routes),
    AreNew-put type handler rest routes (ground (arith, f)) a.1,
  )

  add_all-new :
      (rest : List (ℕ × Handler W)) (routes : Routes W) (type : ℕ)
      → HasUniqueKeys rest
      → AreNew rest routes
      → ((add_all rest routes).1 ≡ none)
        × (find type (add_all rest routes).0
            ≡ (elim (find type rest) [ none ↦ find type routes | some h ↦ some h ]))
  unfolding AreNew add_all add find
  add_all-new [] routes type u a = (refl, refl)
  add_all-new ((t, h) ∷ rest) routes type u a =
      let later = add_all-new rest (put t h routes) type u.1 (AreNew-put t h rest routes u.0 a.1) in
      let free : (type ≡ t) → find type rest ≡ none = λ e. rw e u.0 in
      let e : add_all ((t, h) ∷ rest) routes ≡ add_all rest (put t h routes) =
        ap
          (λ (o : Option (Handler W)).
            let r : Routes W × Option RouteError = elim o [
              | none ↦ (put t h routes, none)
              | some x ↦ (routes, some (duplicate_route t))
            ] in
            elim r.1 as (λ _. Routes W × Option RouteError) [
              | none ↦ add_all rest r.0
              | some x ↦ r
            ])
          a.0 in
      (
        ap (λ (r : Routes W × Option RouteError). r.1) e ∙ later.0,
        ap (λ (r : Routes W × Option RouteError). find type r.0) e
            ∙ later.1
            ∙ ground (arith, free, find-put t type h routes),
      )

  or_none :
      (o : Option (Handler W))
      → (elim o as (λ _. Option (Handler W)) [ none ↦ none | some h ↦ some h ]) ≡ o
  or_none none = refl
  or_none (some h) = refl

  all_new : (rest : List (ℕ × Handler W)) → AreNew rest []
  unfolding AreNew find
  all_new [] = tt
  all_new ((t, h) ∷ rest) = (refl, all_new rest)

  keys_of_routes : (h : Handlers W) → HasUniqueKeys (route_list h)
  unfolding route_list find
  keys_of_routes h = (
    refl,
    (
      refl,
      (
        refl,
        (
          refl,
          (
            refl,
            (
              refl,
              (refl, (refl, (refl, (refl, (refl, (refl, (refl, (refl, (refl, (refl, tt)))))))))),
            ),
          ),
        ),
      ),
    ),
  )

  -- Dispatcher's constructor throws nothing, so that no two of its routes have one type, and then
  -- `handle` runs the handler that the constructor lists for the type of the packet, closing the
  -- session where the handler throws; for any other type it does nothing. `hasHandler` says which.
  pub handle_lem :
      (close : ℕ → W → W) (h : Handlers W) (session : Option ℕ) (type : ℕ) (payload : Bytes) (w : W)
      → ((dispatcher h).1 ≡ none)
        × ((handle close session type payload (dispatcher h).0 w
              ≡ (elim (find type (route_list h)) [
                | none ↦ w
                | some handler ↦ after_handler close session (handler session payload w)
              ]))
            × (has_handler type (dispatcher h).0
                ≡ (elim (find type (route_list h)) [ none ↦ false | some x ↦ true ])))
  unfolding dispatcher handle has_handler dispatch contains find
  handle_lem close h session type payload w =
      let a = add_all-new (route_list h) [] type (keys_of_routes h) (all_new (route_list h)) in
      let same : find type (dispatcher h).0 ≡ find type (route_list h) =
        a.1 ∙ or_none (find type (route_list h)) in
      (
        a.0,
        (
          ap
              (λ (o : Option (Handler W)). elim o as (λ _. W) [
                | none ↦ w
                | some handler ↦ after_handler close session (handler session payload w)
              ])
              same,
          ap (λ (o : Option (Handler W)). elim o as (λ _. Bool) [ none ↦ false | some x ↦ true ])
              same,
        ),
      )
