-- ===== src/Postgres/Config.antt =====
-- libs/postgres/impl/helpers.cpp: the pool that the environment asks for.
use Prim.Native.String.{String}
use vm_scheduler.Prelude.{ℕ, Option, none, some, List, [], ◌∷◌}
use vm_scheduler.Common.Result.{Result, success, failure, runtime_exception, ◌>>=◌}
use vm_scheduler.Aws.Config.{Environment, get_from_env_or_throw, get_number_from_env_or_default}
use vm_scheduler.Postgres.Pool.{PgPool, new_pool}

-- What `toString` streams one behind the other.
data Piece : Type 0 where
  text : String → Piece
  number : ℕ → Piece

unfoldable get_connection_string : Environment → Option String → Result (List Piece)
get_connection_string env (some connection_string) = success (text connection_string ∷ [])
get_connection_string env none = do
  user ← get_from_env_or_throw env "PG_USER"
  db_name ← get_from_env_or_throw env "PG_DB_NAME"
  hosts ← get_from_env_or_throw env "PG_HOSTS"
  password ← get_from_env_or_throw env "PG_PASSWORD"
  success (
      text "user="
      ∷ text user
      ∷ text " "
      ∷ text "dbname="
      ∷ text db_name
      ∷ text " "
      ∷ text "host="
      ∷ text hosts
      ∷ text " "
      ∷ text "password="
      ∷ text password
      ∷ text " "
      ∷ text "port="
      ∷ number (get_number_from_env_or_default env "PG_PORT" 5432)
      ∷ [])

abbrev size_or_throw : Option ℕ → Result ℕ
size_or_throw none = failure runtime_exception
size_or_throw (some size) = success size

unfoldable get_pool_size : Environment → Option ℕ → Result ℕ
get_pool_size env (some pool_size) = success pool_size
get_pool_size env none = size_or_throw (env.number "PG_POOL_SIZE")

-- The pool, with the string that its connections are opened by.
unfoldable create_pool : Environment → Option String → Option ℕ → Result (PgPool × List Piece)
create_pool env connection_string pool_size = do
  string ← get_connection_string env connection_string
  size ← get_pool_size env pool_size
  success (new_pool size, string)
