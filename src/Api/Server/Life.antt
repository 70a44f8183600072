-- ===== src/Api/Server/Life.antt =====
-- internal/api/server.go: `NewServer`, `Start` and `Stop`. `shutdown` is the server's `Shutdown`.
-- What the goroutine of `Start` and the context do is a sequence of events, in the order in which
-- the `select` takes them.
use mqtt_sensor_exporter.Common.{
  ℕ, zero, suc, ◌≡◌, refl, String, Option, none, some, List, [], ◌∷◌, ◌++◌, Error, wrapf, Result,
  ok, err,
}
use mqtt_sensor_exporter.Common.Int.{ℤ, pos}

-- The fields of `http.Server` that are set, the times in nanoseconds.
pub record HttpServer : Type 0 where
  pub addr : String
  pub read_timeout : ℤ
  pub read_header_timeout : ℤ
  pub write_timeout : ℤ
  pub idle_timeout : ℤ

-- `Server`; `server` is nil until `Start`.
pub record Server : Type 0 where
  pub address : String
  pub server : Option HttpServer

-- `ListenAndServe` returns an error, or `http.ErrServerClosed`, which is not handed on; or the
-- context is done.
pub data Event : Type 0 where
  listen_error : Error → Event
  server_closed : Event
  context_done : Event

unfoldable pub new_server : String → Server
new_server address = record { address = address; server = none }

unfoldable pub http_server : String → HttpServer
http_server address = record {
  addr = address;
  read_timeout = pos 10000000000;
  read_header_timeout = pos 5000000000;
  write_timeout = pos 10000000000;
  idle_timeout = pos 120000000000;
}

module _ {W : Type 0} (shutdown : HttpServer → W → W × Result (Unit {0})) where
  -- The `select`; `none` while it waits.
  unfoldable pub wait : HttpServer → List Event → W → Option (W × Result (Unit {0}))
  wait h [] w = none
  wait h (listen_error e ∷ events) w = some (w, err (wrapf "server error" e))
  wait h (server_closed ∷ events) w = wait h events w
  wait h (context_done ∷ events) w = some (shutdown h w)

  unfoldable pub start : Server → List Event → W → Server × Option (W × Result (Unit {0}))
  start s events w =
      let h = http_server s.address in (record s { server = some h }, wait h events w)

  abbrev stop_server : Option HttpServer → W → W × Result (Unit {0})
  stop_server none w = (w, ok tt)
  stop_server (some h) w = shutdown h w

  unfoldable pub stop : Server → W → W × Result (Unit {0})
  stop s w = stop_server s.server w

  -- A server that is closed, as often as one likes.
  abbrev pub closed : ℕ → List Event
  closed zero = []
  closed (suc n) = server_closed ∷ closed n

  wait-closed :
      (n : ℕ) (h : HttpServer) (rest : List Event) (w : W)
      → wait h (closed n ++ rest) w ≡ wait h rest w
  unfolding wait
  wait-closed zero h rest w = refl
  wait-closed (suc n) h rest w = wait-closed n h rest w

  -- `Start` on every outcome: a server that is closed without the context being done does not make
  -- it return; the end of the context makes it return what `Shutdown` of the server at its address
  -- returns; an error of the server is returned as a "server error" and shuts nothing down. After
  -- `Start`, `Stop` shuts that same server down, and before it does nothing.
  pub start_outcome :
      (address : String) (n : ℕ) (e : Error) (events rest : List Event) (w : W)
      → ((start (new_server address) (closed n ++ []) w).1 ≡ none)
        × ((start (new_server address) (closed n ++ context_done ∷ rest) w).1
            ≡ some (shutdown (http_server address) w))
        × ((start (new_server address) (closed n ++ listen_error e ∷ rest) w).1
            ≡ some (w, err (wrapf "server error" e)))
        × (stop (start (new_server address) events w).0 w ≡ shutdown (http_server address) w)
        × (stop (new_server address) w ≡ (w, ok tt))
  unfolding start stop new_server wait
  start_outcome address n e events rest w = (
    wait-closed n (http_server address) [] w,
    wait-closed n (http_server address) (context_done ∷ rest) w,
    wait-closed n (http_server address) (listen_error e ∷ rest) w,
    refl,
    refl,
  )
