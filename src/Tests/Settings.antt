-- ===== src/Tests/Settings.antt =====
-- Settings of an environment, as they are read.
use task_management.Base.{
  String, true, false, Option, none, some, [], ◌∷◌, ◌≡◌, refl, str_eq, if◌then◌else◌,
}
use task_management.Domain.Listing.{pos, negsuc}
use task_management.Domain.Text.{trim_space, to_lower}
use task_management.Config.Env.{lookup, int, bool, list, str, required, atoi, missing, not_integer}

abbrev settings : String → Option String
settings key =
    if str_eq key "HTTP_PORT"
    then some " 8080 "
    else if str_eq key "COST"
    then some "-12"
    else if str_eq key "REDIS_DB"
    then some "12a"
    else if str_eq key "ENABLE_DOCS"
    then some "Off"
    else if str_eq key "ALLOWED_ORIGINS"
    then some "a.org, ,b.org"
    else none

reads_port : int settings "HTTP_PORT" (pos 1) ≡ (pos 8080, [])
unfolding int lookup atoi trim_space
reads_port = refl

reads_cost : int settings "COST" (pos 12) ≡ (negsuc 11, [])
unfolding int lookup atoi trim_space
reads_cost = refl

rejects_db : int settings "REDIS_DB" (pos 0) ≡ (pos 0, not_integer "REDIS_DB" "12a" ∷ [])
unfolding int lookup atoi trim_space
rejects_db = refl

reads_docs : bool settings "ENABLE_DOCS" true ≡ (false, [])
unfolding bool lookup to_lower trim_space
reads_docs = refl

misses_secret : required settings "SECRET" ≡ ("", missing "SECRET" ∷ [])
unfolding required lookup
misses_secret = refl

reads_origins : list settings "ALLOWED_ORIGINS" "*" ≡ "a.org" ∷ "b.org" ∷ []
unfolding list str lookup trim_space
reads_origins = refl
