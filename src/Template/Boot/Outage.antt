-- ===== src/Template/Boot/Outage.antt =====
-- The whole service while the identity provider does not answer: from the route table in
-- template/src/inbound/router.rs down to the introspection client in rust/src/introspect_client.rs.
use maxgame_admin_guard.Base.{
  ℕ, String, ◌≡◌, true, false, Option, none, some, List, Bool-cases, inl, inr,
}
use maxgame_admin_guard.Json.{Serde}
use maxgame_admin_guard.Introspect.Client as Live
use maxgame_admin_guard.Token.{Crates}
use maxgame_admin_guard.Jwks.{KeyCrates}
use maxgame_admin_guard.Jwks.Client as Keys
use maxgame_admin_guard.Jwks.Client.{Reply}
use maxgame_admin_guard.Guard.{is_mutating}
use maxgame_admin_guard.AxumExt.{bearer_token, requirement}
use maxgame_admin_guard.Guard.Wiring.{Wired}
use maxgame_admin_guard.Guard.Wiring.Outage.{mutations_fail_closed}
use maxgame_admin_guard.Template.Config.{Config}
use maxgame_admin_guard.Template.Service.{
  HttpRequest, Response, guard_config, example_site, example_feature,
}
use maxgame_admin_guard.Template.Service.Router.{Route, build_router}
use maxgame_admin_guard.Template.Service.Laws.{IsAxum, is_admin_body, admin_rows-authorized}
use maxgame_admin_guard.Template.Boot.{Host, new_state, app}

module _ {Key Net Pool Listener : Type 0} (key_crates : KeyCrates Key) (serde : Serde)
    (crates : Crates Key) (now unix_seconds : Net → ℕ) (get : String → ℕ → Net → Option Reply × Net)
    (post : Live.Request → Net → Option Live.Response × Net)
    (dead : (r : Live.Request) (net : Net) → (post r net).0 ≡ none)
    (settled : Keys.World Key Net → Keys.World Key Net)
    (dispatch : List Route → String → String → Option Route) (unmatched : HttpRequest → Response)
    (axum : IsAxum dispatch unmatched) (host : Host Key Net Pool Listener) where
  -- While the identity provider answers no introspection, the started service answers no mutation
  -- with a created row or a row of the admin list, whatever the configuration, the path, the token,
  -- the state of the two clients and the database.
  pub outage-refuses :
      (config : Config) (pool : Pool) (routes : List Route) (request : HttpRequest)
      (w w' : Wired Key Net) (response : Response)
      → build_router host.nestable config ≡ some routes
      → is_mutating (guard_config config) request.head.method ≡ true
      → app key_crates serde crates now unix_seconds get post settled dispatch unmatched host config
          pool routes request w
        ≡ (response, w')
      → is_admin_body response.body ≡ false
  unfolding new_state
  outage-refuses config pool routes request w w' response built mutates h =
      elim (Bool-cases (is_admin_body response.body)) [
        | inr hidden ↦ hidden
        | inl shown ↦
            let state =
              new_state key_crates serde crates now unix_seconds get post settled dispatch unmatched
                host config pool in
            let (identity, after, authorized) =
              admin_rows-authorized crates (λ v. unix_seconds v.net) state dispatch unmatched axum
                host.nestable routes built request w w' response h shown in
            absurd (
              mutations_fail_closed serde now post dead key_crates get settled crates
                (λ v. unix_seconds v.net) (guard_config config) request.head.method
                (bearer_token request.head.authorization)
                (some (requirement example_site example_feature)) w after identity mutates
                authorized)
      ]
