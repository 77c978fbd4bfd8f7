-- ===== src/External/Json.antt =====
-- nlohmann::json. Where it throws, the exception derives from `json::exception`; `inl` holds its
-- `what()`.
use ccfolio.Common.{◌⊎◌, inl, inr, Bool}
use ccfolio.Common.Text.{Str}
use ccfolio.Common.Effect.{json_error, ok, throw, M}

pub record JsonLib : Type 1 where
  pub Json : Type 0
  -- `json::parse(text)`
  pub parse : Str → Str ⊎ Json
  -- `j[key]`, read
  pub index : Json → Str → Str ⊎ Json
  -- the conversion to `std::string`
  pub get_string : Json → Str ⊎ Str
  -- `json j;`
  pub null : Json
  -- `j[key] = value`
  pub assign : Json → Str → Json → Json
  pub of_bool : Bool → Json
  pub of_string : Str → Json
  -- `j.dump()`
  pub dump : Json → Str ⊎ Str

abbrev pub or_json_error : {S A : Type 0} → Str ⊎ A → M S A
or_json_error (inl m) s = (throw (json_error m), s)
or_json_error (inr a) s = (ok a, s)
