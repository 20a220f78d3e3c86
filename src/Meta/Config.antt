-- ===== src/Meta/Config.antt =====
-- The configuration of src/healthassure_messaging/providers/meta.py, and the call that it makes of a
-- payload. Timeouts are numbers of Python, which may be floats: their type is a parameter with the
-- tests that the code makes on it.
use Prim.Native.Char.{code}
use Prim.Native.String.{[], ◌∷◌, ◌++◌}
use healthassure_messaging.Base.{String, Bool, false, not, ◌&&◌, ◌||◌, nat_eq, leb, if◌then◌else◌}
use healthassure_messaging.Base.Text.{is_digit, is_decimal, every}
use healthassure_messaging.Errors.{Error, Result, ok, ◌>>◌, raise_if, require_text}
use healthassure_messaging.Json.{Value}

-- `isinstance`, without `bool`; `math.isfinite`; and the two comparisons.
pub record Numbers (T : Type 0) : Type 0 where
  pub is_number : T → Bool
  pub is_finite : T → Bool
  pub is_positive : T → Bool
  pub is_at_most_300 : T → Bool

-- `[0-9]*\.[0-9]+` on a whole text.
unfoldable pub after_major : String → Bool
after_major [] = false
after_major (c ∷ s) =
    let rest = after_major s in
    if is_digit (code c) then rest else nat_eq (code c) b'.' && is_decimal s

-- `v[1-9][0-9]*\.[0-9]+`, and `[1-9][0-9]*`.
unfoldable pub graph_version_ok : String → Bool
unfolding after_major
graph_version_ok (v ∷ d ∷ s) =
    nat_eq (code v) b'v' && leb 49 (code d) && leb (code d) 57 && after_major s
graph_version_ok _ = false

unfoldable pub phone_number_id_ok : String → Bool
phone_number_id_ok (d ∷ s) = leb 49 (code d) && leb (code d) 57 && every is_digit s
phone_number_id_ok _ = false

pub record MetaCloudConfig (T : Type 0) : Type 0 where
  pub graph_version : String
  pub phone_number_id : String
  pub access_token : String
  pub connect_timeout : T
  pub read_timeout : T

-- What `post_json` is called with.
pub record PostCall (T : Type 0) : Type 0 where
  pub url : String
  pub authorization : String
  pub content_type : String
  pub json_body : Value
  pub connect_timeout : T
  pub read_timeout : T

module _ {T : Type 0} (numbers : Numbers T) where
  unfoldable pub validate_timeout : T → Result (Unit {0})
  validate_timeout value = do
    raise_if (not (numbers.is_number value)) Error.type_error
    raise_if
        (not (numbers.is_finite value)
          || not (numbers.is_positive value)
          || not (numbers.is_at_most_300 value))
        Error.value_error

  -- `__post_init__`.
  unfoldable pub check_config : MetaCloudConfig T → Result (MetaCloudConfig T)
  unfolding graph_version_ok phone_number_id_ok validate_timeout
  check_config c = do
    raise_if (not (graph_version_ok c.graph_version)) Error.value_error
    raise_if (not (phone_number_id_ok c.phone_number_id)) Error.value_error
    require_text c.access_token
    validate_timeout c.connect_timeout
    validate_timeout c.read_timeout
    ok c

-- `_GRAPH_HOST`.
abbrev pub graph_host : String
graph_host = "https://graph.facebook.com"

-- The call of `post_json` in `send`.
unfoldable pub post_call : {T : Type 0} → MetaCloudConfig T → Value → PostCall T
post_call c payload = record {
  url = graph_host ++ "/" ++ c.graph_version ++ "/" ++ c.phone_number_id ++ "/messages";
  authorization = "Bearer " ++ c.access_token;
  content_type = "application/json";
  json_body = payload;
  connect_timeout = c.connect_timeout;
  read_timeout = c.read_timeout;
}

-- The character of a path that is neither a separator nor the start of a query.
abbrev pub path_character : String → Bool
path_character s = every (λ c. nat_eq c b'v' || nat_eq c b'.' || is_digit c) s
