-- ===== src/Examples/Boot.antt =====
-- template/src/main.rs on a concrete process: a staging environment, a network whose clock ticks
-- with each call, and a server that waits for Ctrl-C.
use maxgame_admin_guard.Base.{
  ℕ, ◌+◌, String, ◌≡◌, refl, true, false, Option, none, some, [], ok, err, leb, if◌then◌else◌,
}
use maxgame_admin_guard.Base.Int.{pos}
use maxgame_admin_guard.Base.Text.{
  trim, is_empty, trim_start_matches, trim_end_matches, is_whitespace, starts_with, split,
}
use maxgame_admin_guard.Introspect.Client as Live
use maxgame_admin_guard.Guard.{is_mutating, default_mutating_methods}
use maxgame_admin_guard.Guard.Wiring.{Wired, new_world}
use maxgame_admin_guard.Template.Config.{
  load, read_parts, assemble, validate, validate_deployed, required, parse_or, from_str,
  to_ascii_lowercase, join_url, csv_list, is_dev, as_str, len, system_env,
}
use maxgame_admin_guard.Template.Repo.{Postgres, connect, migrate}
use maxgame_admin_guard.Template.Service.{HttpRequest, Response, guard_config}
use maxgame_admin_guard.Template.Service.Router.{
  first_match, build_router, health_routes, public_routes, admin_routes,
}
use maxgame_admin_guard.Template.Service.Table.{table_at}
use maxgame_admin_guard.Template.Boot.{panicked, Host, app, bind_listener, serve_app, run}
use maxgame_admin_guard.Examples as Toys
use maxgame_admin_guard.Examples.Keys as Toy
use maxgame_admin_guard.Examples.Settings
use maxgame_admin_guard.Examples.Routes.{unmatched, manager_crates, first_match-IsAxum}
use maxgame_admin_guard.Template.Boot.Outage.{outage-refuses}
use maxgame_admin_guard.Template.Service.Laws.{is_admin_body}

loads : load (system_env Settings.env) ≡ ok Settings.config
unfolding load read_parts assemble validate validate_deployed required parse_or from_str
    to_ascii_lowercase join_url csv_list is_dev as_str len trim is_empty trim_start_matches
    trim_end_matches is_whitespace starts_with split system_env
loads = refl

abbrev wired_rows : Postgres (Wired ℕ ℕ)
wired_rows = record {
  fetch_all = λ q w. (ok [], w);
  fetch_count = λ public_only w. (ok (pos 0), w);
  insert_row = λ name is_public w. (err none, w);
  fetch_row = λ id w. (ok none, w);
  select_one = λ w. (ok tt, w);
}

abbrev host : Host ℕ ℕ String String
host = record {
  var = Settings.env;
  driver = record {
    connect_lazy = λ url most timeout. ok url;
    run_migrations = λ pool net. (ok tt, net + 1);
  };
  rows = λ pool. wired_rows;
  new_http = some tt;
  nestable = λ base. true;
  bind = λ address net. (ok address, net + 1);
  tokio = record {
    ctrl_c = λ net. if leb 7 net then some (ok tt) else none;
    sigterm = err "denied";
  };
  axum_serve = λ listener app shutdown w.
      let after = record w { net = w.net + 7 } in
      if shutdown after.net then (ok tt, after) else (err "listener closed", after);
}

abbrev silent : Live.Request → ℕ → Option Live.Response × ℕ
silent r net = (none, net + 1)

ran :
    run Toy.crates Toys.serde Toys.crates
      (λ net. net)
      (λ net. net)
      Toy.send
      silent
      Toy.settled
      first_match
      unmatched
      host
      5
    ≡ (ok tt, 14)
unfolding run build_router health_routes public_routes admin_routes connect migrate bind_listener
    serve_app load read_parts assemble validate validate_deployed required parse_or from_str
    to_ascii_lowercase join_url csv_list is_dev as_str len trim is_empty trim_start_matches
    trim_end_matches is_whitespace starts_with split system_env
ran = refl

-- A panic after the migration, before the listener is bound.
ran_panicked :
    run Toy.crates Toys.serde Toys.crates
      (λ net. net)
      (λ net. net)
      Toy.send
      silent
      Toy.settled
      first_match
      unmatched
      (record host { new_http = none })
      5
    ≡ (err panicked, 6)
unfolding run build_router health_routes public_routes admin_routes connect migrate bind_listener
    serve_app load read_parts assemble validate validate_deployed required parse_or from_str
    to_ascii_lowercase join_url csv_list is_dev as_str len trim is_empty trim_start_matches
    trim_end_matches is_whitespace starts_with split system_env
ran_panicked = refl

-- A signed request to create an item, to the started service.
abbrev creates : HttpRequest
creates = record {
  path = "/admin/example";
  head = record { method = "POST"; authorization = some "Bearer h.p.s"; extension = none };
  query = ok (record { page = none; take = none });
  body = ok (record { name = "item"; is_public = true });
}

abbrev answered : Response × Wired ℕ ℕ
answered =
    app Toy.crates Toys.serde manager_crates (λ net. net) (λ net. 0) Toy.send silent Toy.settled
      first_match unmatched host Settings.config "postgres://db" (table_at "") creates
      (new_world (guard_config Settings.config) 5)

outage-refuses_example : is_admin_body answered.0.body ≡ false
outage-refuses_example =
    outage-refuses Toy.crates Toys.serde manager_crates (λ net. net) (λ net. 0) Toy.send silent
      (λ r net. refl) Toy.settled first_match unmatched first_match-IsAxum host Settings.config
      "postgres://db" (table_at "") creates (new_world (guard_config Settings.config) 5) answered.1
      answered.0 built posts refl
  where
    built : build_router host.nestable Settings.config ≡ some (table_at "")
    built = unfold build_router table_at health_routes public_routes admin_routes is_empty in refl

    posts : is_mutating (guard_config Settings.config) "POST" ≡ true
    posts = unfold is_mutating guard_config default_mutating_methods in refl
