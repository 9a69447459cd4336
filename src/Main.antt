-- ===== src/Main.antt =====
-- cmd/web/main.go: the port that the program listens at, and its exit. The server is that of Server/Site.
use go_octopi.Base.{ℕ, Option, none, some, List, ◌++◌, String-Eq, if◌then◌else◌, ◌==◌}
use go_octopi.Base.Fault.{Error, int_digits}
use go_octopi.Base.Int.{ℤ, pos}
use go_octopi.Base.Text.{codes}
use go_octopi.Server.WalletCache.{Environment}

abbrev parsed_or : ℤ → Option ℤ → ℤ
parsed_or fallback none = fallback
parsed_or fallback (some n) = n

-- The port of the environment, as far as strconv.Atoi reads it, or 8080.
unfoldable pub server_port : Environment → ℤ
server_port env =
    let value = env.getenv "OCTOPI_SERVER_PORT" in
    if value == "" then pos 8080 else parsed_or (pos 8080) (env.atoi value)

abbrev exit_code : Option Error → ℕ
exit_code none = 0
exit_code (some e) = 1

abbrev listened : (List ℕ → Option Error) → Environment → Option (Unit {0}) → Option ℕ
listened listen_and_serve env none = none
listened listen_and_serve env (some handler) =
    some (exit_code (listen_and_serve (codes ":" ++ int_digits (server_port env))))

-- `main`, around a server that may panic and http.ListenAndServe: the exit code; `none` is a panic.
unfoldable pub main : Option (Unit {0}) → (List ℕ → Option Error) → Environment → Option ℕ
unfolding int_digits
main new_server listen_and_serve env = listened listen_and_serve env new_server
