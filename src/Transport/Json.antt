-- ===== src/Transport/Json.antt =====
-- The calls that transport/src/json_protocol.cpp makes of nlohmann::json, a library that is not in this
-- repository: its type of values and its functions are parameters of the model.
use clear_space.Prelude.{ℕ, String, Bool, Option, List}
use clear_space.Core.Types.{Expected}

pub record JsonLibrary : Type 1 where
  pub Json : Type 0
  -- json::parse, with the text of the exception
  pub parse : String → Expected Json String
  pub is_object : Json → Bool
  pub contains : Json → String → Bool
  -- object.at(key), where the key is there
  pub at : Json → String → Json
  -- get<T>() for T = std::string, std::uint64_t, unsigned int, float; `none` for a json::exception
  pub get_string : Json → Option String
  pub get_u64 : Json → Option ℕ
  pub get_u32 : Json → Option ℕ
  pub get_float : Json → Option ℕ
  -- values from texts, numbers, floats, truth values, arrays and lists of fields
  pub of_string : String → Json
  pub of_u64 : ℕ → Json
  pub of_float : ℕ → Json
  pub of_bool : Bool → Json
  pub array : List Json → Json
  pub object : List (String × Json) → Json
  -- `none` for a json::exception, as for a text that is not UTF-8
  pub dump : Json → Option String
